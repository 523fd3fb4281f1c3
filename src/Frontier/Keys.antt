-- ===== src/Frontier/Keys.antt =====
-- The keys of the maps of optimizer_support.go under the writes that it makes.
use gepago.Base.{
  ℕ, ◌≡◌, ◌≢◌, refl, String, Bool, true, false, ◌||◌, List, [], ◌∷◌, arith, str_eq, str_eq_iff,
}
use gepago.Frontier.Defs.{erase, keys, bump}

-- The text is in the list.
abbrev pub has : String → List String → Bool
has k [] = false
has k (j ∷ js) = str_eq j k || has k js

abbrev pub Distinct : List String → Type 0
Distinct [] = Unit
Distinct (k ∷ ks) = (has k ks ≡ false) × Distinct ks

module _ {ℓ} {V : Type ℓ} where
  pub has-erase_sub :
      (j k : String) (m : List (String × V))
      → has j (keys (erase k m)) ≡ true
      → has j (keys m) ≡ true
  unfolding erase
  has-erase_sub j k [] h = h
  has-erase_sub j k ((i, v) ∷ m) h = ground (arith, has-erase_sub j k m)

  pub has-erase_ne :
      (j k : String) (m : List (String × V))
      → j ≢ k
      → has j (keys m) ≡ true
      → has j (keys (erase k m)) ≡ true
  unfolding erase
  has-erase_ne j k [] ne h = h
  has-erase_ne j k ((i, v) ∷ m) ne h =
      ground (arith, str_eq_iff i k, str_eq_iff i j, has-erase_ne j k m ne)

  pub has-erase_self :
      (k : String) (m : List (String × V)) → Distinct (keys m) → has k (keys (erase k m)) ≡ false
  unfolding erase
  has-erase_self k [] d = refl
  has-erase_self k ((i, v) ∷ m) d = ground (arith, str_eq_iff i k, has-erase_self k m d.1)

  pub erase-Distinct :
      (k : String) (m : List (String × V)) → Distinct (keys m) → Distinct (keys (erase k m))
  unfolding erase
  erase-Distinct k [] d = d
  erase-Distinct k ((i, v) ∷ m) d = ground (arith, erase-Distinct k m d.1, has-erase_sub i k m)

pub has-bump :
    (j k : String) (m : List (String × ℕ))
    → has j (keys (bump k m)) ≡ (str_eq k j || has j (keys m))
unfolding bump
has-bump j k [] = refl
has-bump j k ((i, n) ∷ m) = ground (arith, has-bump j k m, str_eq_iff i k)

pub bump-Distinct :
    (k : String) (m : List (String × ℕ)) → Distinct (keys m) → Distinct (keys (bump k m))
unfolding bump
bump-Distinct k [] d = (refl, tt)
bump-Distinct k ((i, n) ∷ m) d =
    ground (arith, bump-Distinct k m d.1, has-bump i k m, str_eq_iff i k, str_eq_iff k i)
