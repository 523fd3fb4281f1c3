-- ===== src/Transition/Prefix.antt =====
-- Sums along a difference array, as pipeline_transition.go takes them.
use gepago.Base.{
  inl, inr, Bool-cases, ℕ, zero, suc, ◌≡◌, refl, sym, ap, subst, ◌∙◌, Bool, true, false, ◌&&◌, ◌||◌,
  arith, leb, ◌==◌, if◌then◌else◌,
}
use gepago.Base.Int.{ℤ, pos, ◌+ℤ◌, +ℤ_parts, eq_of_parts}
use gepago.Transition.Defs.{add_at}

-- The entries from the first through this one, added to a number.
abbrev pub sum_to : (ℕ → ℤ) → ℤ → ℕ → ℤ
sum_to a z zero = z +ℤ a 0
sum_to a z (suc i) = sum_to a z i +ℤ a (suc i)

pub add_zero : (x : ℤ) → x +ℤ pos 0 ≡ x
add_zero x = eq_of_parts _ _ (omega (arith, +ℤ_parts x (pos 0)))

pub zero_add : (x : ℤ) → pos 0 +ℤ x ≡ x
zero_add x = eq_of_parts _ _ (omega (arith, +ℤ_parts (pos 0) x))

pub add_comm : (x y : ℤ) → x +ℤ y ≡ y +ℤ x
add_comm x y = eq_of_parts _ _ (omega (arith, +ℤ_parts x y, +ℤ_parts y x))

pub add_assoc : (x y z : ℤ) → x +ℤ (y +ℤ z) ≡ (x +ℤ y) +ℤ z
add_assoc x y z =
    eq_of_parts _ _
      (omega (arith, +ℤ_parts x y, +ℤ_parts y z, +ℤ_parts x (y +ℤ z), +ℤ_parts (x +ℤ y) z))

add_cross : (x y z w : ℤ) → (x +ℤ y) +ℤ (z +ℤ w) ≡ (x +ℤ z) +ℤ (y +ℤ w)
add_cross x y z w = eq_of_parts _ _ (
    omega (
      arith,
      +ℤ_parts x y,
      +ℤ_parts z w,
      +ℤ_parts x z,
      +ℤ_parts y w,
      +ℤ_parts (x +ℤ y) (z +ℤ w),
      +ℤ_parts (x +ℤ z) (y +ℤ w),
    ))

add_at-entry :
    (a : ℕ → ℤ) (s : ℕ) (v : ℤ) (j : ℕ) → add_at a s v j ≡ a j +ℤ (if s == j then v else pos 0)
add_at-entry a s v j = elim (Bool-cases (s == j)) [
  | inl h ↦
      let e : s ≡ j = ground (arith, h) in
      subst (λ k. add_at a s v k ≡ a k +ℤ (if s == k then v else pos 0)) e (at_itself s)
  | inr h ↦
      subst (λ b. (if b then a s +ℤ v else a j) ≡ a j +ℤ (if b then v else pos 0)) (sym h)
        (sym (add_zero (a j)))
]
  where
    at_itself : (s : ℕ) → add_at a s v s ≡ a s +ℤ (if s == s then v else pos 0)
    at_itself s =
        let e : (s == s) ≡ true = ground arith in
        subst (λ b. (if b then a s +ℤ v else a s) ≡ a s +ℤ (if b then v else pos 0)) (sym e) refl

add_bits :
    (p q : Bool) (v : ℤ)
    → (p && q) ≡ false
    → (if p then v else pos 0) +ℤ (if q then v else pos 0) ≡ (if p || q then v else pos 0)
add_bits true true v h = absurd cc
add_bits true false v h = add_zero v
add_bits false true v h = eq_of_parts _ _ (omega (arith, +ℤ_parts (pos 0) v))
add_bits false false v h = add_zero (pos 0)

steps_on :
    (s i : ℕ) (v : ℤ)
    → (if leb s i then v else pos 0) +ℤ (if s == suc i then v else pos 0)
      ≡ (if leb s (suc i) then v else pos 0)
steps_on s i v =
    let apart : (leb s i && (s == suc i)) ≡ false = ground arith in
    let joined : (leb s i || (s == suc i)) ≡ leb s (suc i) = ground arith in
    add_bits (leb s i) (s == suc i) v apart ∙ ap (λ b. if b then v else pos 0) joined

pub sum_to-add_at :
    (a : ℕ → ℤ) (s : ℕ) (v z : ℤ) (i : ℕ)
    → sum_to (add_at a s v) z i ≡ sum_to a z i +ℤ (if leb s i then v else pos 0)
sum_to-add_at a s v z zero =
    let e : (s == 0) ≡ leb s 0 = ground arith in
    ap (λ x. z +ℤ x) (add_at-entry a s v 0)
    ∙ add_assoc z (a 0) (if s == 0 then v else pos 0)
    ∙ ap (λ b. (z +ℤ a 0) +ℤ (if b then v else pos 0)) e
sum_to-add_at a s v z (suc i) =
    ap (λ x. x +ℤ add_at a s v (suc i)) (sum_to-add_at a s v z i)
    ∙ ap (λ x. (sum_to a z i +ℤ (if leb s i then v else pos 0)) +ℤ x) (add_at-entry a s v (suc i))
    ∙ add_cross (sum_to a z i) (if leb s i then v else pos 0) (a (suc i))
        (if s == suc i then v else pos 0)
    ∙ ap (λ x. (sum_to a z i +ℤ a (suc i)) +ℤ x) (steps_on s i v)
