-- ===== src/Frontier/Compute.antt =====
-- `computeFrontier` of optimizer_support.go.
use gepago.Base.{
  ℕ, ◌≡◌, ◌↔◌, refl, sym, ◌∙◌, String, Bool, true, false, ◌&&◌, ◌||◌, Option, none, some, List, [],
  ◌∷◌, arith, if-rel, str_eq, str_eq_iff, ◌≢◌, ◌⊎◌, inl, inr, Bool-cases, subst,
}
use gepago.Floats.{Floats, IsOrdered}
use gepago.Frontier.Defs.{
  CandidateRecord, Dimension, keys, bump, score, best, win, wins, winners_from, instance_winners,
  score_dimensions, sort_in, sort_strings, dominates, dominated_by_candidate, prune,
  frontier_weights, compute_frontier,
}
use gepago.Frontier.Keys.{has, Distinct, has-bump, bump-Distinct}
use gepago.Frontier.Best.{attains, is_score, Highest, best-Highest, best_unique}
use gepago.Frontier.Dimensions.{Any, see_records-here}
use gepago.Frontier.Prune.{has-prune_iff}

pub has-sort_in :
    (j k : String) (ks : List String) → has j (sort_in k ks) ≡ (str_eq k j || has j ks)
unfolding sort_in
has-sort_in j k [] = refl
has-sort_in j k (i ∷ ks) = ground (arith, has-sort_in j k ks)

pub has-sort_strings : (k : String) (ks : List String) → has k (sort_strings ks) ≡ has k ks
unfolding sort_strings
has-sort_strings k [] = refl
has-sort_strings k (j ∷ ks) = has-sort_in k j (sort_strings ks) ∙ rw (has-sort_strings k ks)

module _ (F : Floats) where
  open F use {Num, lt, eq}

  -- A record of this name is a best one on one of these dimensions.
  abbrev tops : String → List Dimension → List (CandidateRecord F) → Bool
  tops k [] rs = false
  tops k (d ∷ ds) rs = attains F k d (best F d rs) rs || tops k ds rs

  has-win :
      (k : String) (o : Option Num) (s : Num) (j : String) (weights : List (String × ℕ))
      → has k (keys (win F o s j weights)) ≡ (str_eq j k && is_score F o s || has k (keys weights))
  unfolding win
  has-win k none s j weights = ground arith
  has-win k (some t) s j weights = ground (arith, has-bump k j weights)

  win-Distinct :
      (o : Option Num) (s : Num) (j : String) (weights : List (String × ℕ))
      → Distinct (keys weights)
      → Distinct (keys (win F o s j weights))
  unfolding win
  win-Distinct none s j weights h = h
  win-Distinct (some t) s j weights h =
      if-rel (λ w. Distinct (keys w)) (eq t s) (bump j weights) weights
        (λ _. bump-Distinct j weights h) (λ _. h)

  has-wins :
      (k : String) (d : Dimension) (s : Num) (rs : List (CandidateRecord F))
      (weights : List (String × ℕ))
      → has k (keys (wins F d s rs weights)) ≡ (attains F k d s rs || has k (keys weights))
  unfolding wins
  has-wins k d s [] weights = refl
  has-wins k d s (r ∷ rs) weights =
      has-wins k d s rs (win F (score F d r) s r.id weights)
      ∙ ground (arith, has-win k (score F d r) s r.id weights)

  wins-Distinct :
      (d : Dimension) (s : Num) (rs : List (CandidateRecord F)) (weights : List (String × ℕ))
      → Distinct (keys weights)
      → Distinct (keys (wins F d s rs weights))
  unfolding wins
  wins-Distinct d s [] weights h = h
  wins-Distinct d s (r ∷ rs) weights h =
      wins-Distinct d s rs (win F (score F d r) s r.id weights)
        (win-Distinct (score F d r) s r.id weights h)

  has-winners_from :
      (k : String) (ds : List Dimension) (rs : List (CandidateRecord F))
      (weights : List (String × ℕ))
      → has k (keys (winners_from F ds rs weights)) ≡ (tops k ds rs || has k (keys weights))
  unfolding winners_from
  has-winners_from k [] rs weights = refl
  has-winners_from k (d ∷ ds) rs weights =
      has-winners_from k ds rs (wins F d (best F d rs) rs weights)
      ∙ ground (arith, has-wins k d (best F d rs) rs weights)

  winners_from-Distinct :
      (ds : List Dimension) (rs : List (CandidateRecord F)) (weights : List (String × ℕ))
      → Distinct (keys weights)
      → Distinct (keys (winners_from F ds rs weights))
  unfolding winners_from
  winners_from-Distinct [] rs weights h = h
  winners_from-Distinct (d ∷ ds) rs weights h =
      winners_from-Distinct ds rs _ (wins-Distinct d (best F d rs) rs weights h)

  has-instance_winners :
      (k : String) (rs : List (CandidateRecord F))
      → has k (keys (instance_winners F rs)) ≡ tops k (score_dimensions F rs) rs
  unfolding instance_winners
  has-instance_winners k rs = has-winners_from k (score_dimensions F rs) rs [] ∙ ground arith

  pub instance_winners-Distinct :
      (rs : List (CandidateRecord F)) → Distinct (keys (instance_winners F rs))
  unfolding instance_winners
  instance_winners-Distinct rs = winners_from-Distinct (score_dimensions F rs) rs [] tt

  -- On some example or objective, a record of this name has a score and no record has a higher one.
  abbrev pub IsTop : String → List (CandidateRecord F) → Type 0
  IsTop k rs = (d : Dimension) × (s : Num) × (attains F k d s rs ≡ true) × Highest F d s rs

  tops-Any :
      (k : String) (ds : List Dimension) (rs : List (CandidateRecord F))
      → tops k ds rs ≡ true
      → (d : Dimension) × (attains F k d (best F d rs) rs ≡ true)
  tops-Any k [] rs h = cc
  tops-Any k (d ∷ ds) rs h = elim (Bool-cases (attains F k d (best F d rs) rs)) [
    | inl e ↦ (d, e)
    | inr e ↦ tops-Any k ds rs (ground (arith, h, e))
  ]

  Any-tops :
      (k : String) (ds : List Dimension) (rs : List (CandidateRecord F))
      → Any (λ d. attains F k d (best F d rs) rs ≡ true) ds
      → tops k ds rs ≡ true
  Any-tops k [] rs h = absurd h
  Any-tops k (d ∷ ds) rs (inl h) = ground (arith, h)
  Any-tops k (d ∷ ds) rs (inr h) = ground (arith, Any-tops k ds rs h)

  attains-scored :
      (k : String) (d : Dimension) (s : Num) (rs : List (CandidateRecord F))
      → attains F k d s rs ≡ true
      → Any (λ r. (t : Num) × (score F d r ≡ some t)) rs
  attains-scored k d s [] h = cc
  attains-scored k d s (r ∷ rs) h = go (score F d r) refl h (attains-scored k d s rs)
    where
      go :
          (x : Option Num)
          → score F d r ≡ x
          → (str_eq r.id k && is_score F x s || attains F k d s rs) ≡ true
          → (attains F k d s rs ≡ true → Any (λ q. (t : Num) × (score F d q ≡ some t)) rs)
          → ((t : Num) × (score F d r ≡ some t)) ⊎ Any (λ q. (t : Num) × (score F d q ≡ some t)) rs
      go none p h later = inr (later (ground (arith, h)))
      go (some t) p h later = inl (t, p)

  -- The names that have weights are those of the records that are best somewhere.
  pub has-instance_winners_iff :
      (o : IsOrdered F) (rs : List (CandidateRecord F)) (k : String)
      → (has k (keys (instance_winners F rs)) ≡ true) ↔ IsTop k rs
  unfolding score_dimensions
  has-instance_winners_iff o rs k = (
    λ h.
        let (d, there) =
          tops-Any k (score_dimensions F rs) rs (sym (has-instance_winners k rs) ∙ h) in
        (d, best F d rs, there, best-Highest F o d rs),
    λ (d, s, there, high).
        has-instance_winners k rs
        ∙ Any-tops k (score_dimensions F rs) rs (
            see_records-here (λ e. attains F k e (best F e rs) rs ≡ true) F d rs []
              (subst (λ t. attains F k d t rs ≡ true) (best_unique F o k s d rs there high) there)
              (attains-scored k d s rs there)),
  )

  -- No other of these names dominates the name.
  abbrev pub Undominated : String → (String → Type 0) → List (CandidateRecord F) → Type 0
  Undominated k P rs = (j : String) → P j → j ≢ k → dominates F j k rs ≡ false

  dominated-false_iff :
      (k : String) (js : List String) (rs : List (CandidateRecord F))
      → (dominated_by_candidate F k js rs ≡ false) ↔ Undominated k (λ j. has j js ≡ true) rs
  unfolding dominated_by_candidate
  dominated-false_iff k [] rs = (λ h j there ne. cc, λ h. refl)
  dominated-false_iff k (i ∷ js) rs = (
    λ h j there ne. elim (Bool-cases (str_eq i j)) [
      | inl e ↦
          subst (λ x. dominates F x k rs ≡ false) ((str_eq_iff i j).0 e)
            (ground (arith, h, e, ne, str_eq_iff i k, str_eq_iff i j))
      | inr e ↦ (dominated-false_iff k js rs).0 (ground (arith, h)) j (ground (arith, there, e)) ne
    ],
    λ h.
        let rest = (dominated-false_iff k js rs).1 (λ j there ne. h j (ground (arith, there)) ne) in
        elim (Bool-cases (str_eq i k)) [
          | inl e ↦ ground (arith, rest, e)
          | inr e ↦
              let first =
                h i (ground (arith, str_eq_iff i i)) (λ p. cc (e, (str_eq_iff i k).1 p)) in
              ground (arith, rest, first)
        ],
  )

  -- The frontier holds exactly the names k such that, on some example or objective, a record of the
  -- name k has a score and no record a higher one, and such that no other name of which this is true
  -- dominates k; on scores that are ordered.
  pub has-compute_frontier_iff :
      (o : IsOrdered F) (rs : List (CandidateRecord F)) (k : String)
      → (has k (compute_frontier F rs) ≡ true) ↔ (IsTop k rs × Undominated k (λ j. IsTop j rs) rs)
  unfolding compute_frontier frontier_weights
  has-compute_frontier_iff o rs k =
      let winners = instance_winners F rs in
      let (to, from) =
        has-prune_iff F rs o (keys winners) winners k (instance_winners-Distinct rs) (λ j h. h) in
      let sorted = has-sort_strings k (keys (prune F (keys winners) winners rs)) in
      let free = dominated-false_iff k (keys winners) rs in
      (
        λ h.
            let (there, out) = to (sym sorted ∙ h) in
            (
              (has-instance_winners_iff o rs k).0 there,
              λ j top ne. free.0 out j ((has-instance_winners_iff o rs j).1 top) ne,
            ),
        λ (top, out).
            sorted
            ∙ from (
              (has-instance_winners_iff o rs k).1 top,
              free.1 (λ j there ne. out j ((has-instance_winners_iff o rs j).0 there) ne),
            ),
      )
