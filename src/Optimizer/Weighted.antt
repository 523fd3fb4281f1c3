-- ===== src/Optimizer/Weighted.antt =====
-- The weighted choice of `sampleWeightedFrontier`, and `bestByValidation`.
use gepago.Base.{
  ℕ, ◌+◌, ◌-◌, ◌≤◌, ◌<◌, ◌≡◌, ◌↔◌, ◌⊎◌, inl, inr, refl, sym, ap, subst, ◌∙◌, String, Bool, true,
  false, ◌||◌, some, List, [], ◌∷◌, All, str_eq, str_eq_iff, ltb, ltb→lt, if◌then◌else◌, arith,
  Bool-cases, if-rel,
}
use gepago.Floats.{Floats, IsOrdered}
use gepago.Frontier.Defs.{CandidateRecord}
use gepago.Frontier.Keys.{has, Distinct}
use gepago.Frontier.Dominance.{nlt_trans}
use gepago.Optimizer.Invariant.{record_ids}
use gepago.Optimizer.Select.{weight, pick_weighted, better_of, best_by_validation}

-- The weights of the candidates before this one.
abbrev pub weight_before : String → List String → List (String × ℕ) → ℕ
weight_before k [] weights = 0
weight_before k (j ∷ js) weights =
    let rest = weight_before k js weights in if str_eq j k then 0 else weight weights j + rest

module _ (weights : List (String × ℕ)) where
  taken :
      (j : String) (js : List String) (pick : ℕ)
      → ltb pick (weight weights j) ≡ true
      → pick_weighted (j ∷ js) weights pick ≡ some j
  taken j js pick less = unfold pick_weighted in rw less

  passed :
      (j : String) (js : List String) (pick : ℕ)
      → ltb pick (weight weights j) ≡ false
      → pick_weighted (j ∷ js) weights pick ≡ pick_weighted js weights (pick - weight weights j)
  passed j js pick more = unfold pick_weighted in rw more

  pick_weighted-has :
      (ids : List String) (pick : ℕ) (k : String)
      → pick_weighted ids weights pick ≡ some k
      → has k ids ≡ true
  pick_weighted-has [] pick k h = unfold pick_weighted in cc
  pick_weighted-has (j ∷ js) pick k h = elim (Bool-cases (ltb pick (weight weights j))) [
    | inl less ↦
        let e : some j ≡ some k = sym (taken j js pick less) ∙ h in
        let same : str_eq j k ≡ true = (str_eq_iff j k).1 (cc e) in rw same
    | inr more ↦
        let later =
          pick_weighted-has js (pick - weight weights j) k (sym (passed j js pick more) ∙ h) in
        either later
  ]
    where
      either : has k js ≡ true → (str_eq j k || has k js) ≡ true
      either later = ground (arith, later)

  -- On a frontier without repetitions, the choice is a candidate exactly on the numbers from the
  -- weights before it up to its own, so on as many numbers as its weight.
  pub pick_weighted-some_iff :
      (ids : List String) (pick : ℕ) (k : String)
      → Distinct ids
      → has k ids ≡ true
      → (pick_weighted ids weights pick ≡ some k) ↔ (
          (weight_before k ids weights ≤ pick)
          × (pick < weight_before k ids weights + weight weights k))
  pick_weighted-some_iff [] pick k d h = absurd cc
  pick_weighted-some_iff (j ∷ js) pick k d h = elim (Bool-cases (str_eq j k)) [
    | inl same ↦ first same (Bool-cases (ltb pick (weight weights j)))
    | inr other ↦
        later other
          (pick_weighted-some_iff js (pick - weight weights j) k d.1 (ground (arith, h, other)))
          (Bool-cases (ltb pick (weight weights j)))
  ]
    where
      Chosen : Type 0
      Chosen = pick_weighted (j ∷ js) weights pick ≡ some k

      Within : ℕ → Type 0
      Within before = (before ≤ pick) × (pick < before + weight weights k)

      before : ℕ
      before = weight_before k js weights

      first :
          str_eq j k ≡ true
          → (ltb pick (weight weights j) ≡ true) ⊎ (ltb pick (weight weights j) ≡ false)
          → Chosen ↔ Within (weight_before k (j ∷ js) weights)
      first same (inl less) =
          let e : j ≡ k = (str_eq_iff j k).0 same in
          let own : pick < weight weights k =
            subst (λ i. pick < weight weights i) e (ltb→lt _ _ less) in
          rw same
            ((λ c. (omega arith, omega (arith, own))), (λ w. taken j js pick less ∙ ap some e))
      first same (inr more) =
          let e : j ≡ k = (str_eq_iff j k).0 same in
          let past : ltb pick (weight weights k) ≡ false =
            subst (λ i. ltb pick (weight weights i) ≡ false) e more in
          let gone : has k js ≡ false = subst (λ i. has i js ≡ false) e d.0 in
          rw same (
            (λ c. absurd (cc (gone, pick_weighted-has js _ k (sym (passed j js pick more) ∙ c)))),
            (λ w. absurd (ground (arith, past, w.1))),
          )

      later :
          str_eq j k ≡ false
          → (pick_weighted js weights (pick - weight weights j) ≡ some k) ↔ (
              (before ≤ pick - weight weights j)
              × (pick - weight weights j < before + weight weights k))
          → (ltb pick (weight weights j) ≡ true) ⊎ (ltb pick (weight weights j) ≡ false)
          → Chosen ↔ Within (weight_before k (j ∷ js) weights)
      later other ih (inl less) = rw other (
        (λ c.
            let e : some j ≡ some k = sym (taken j js pick less) ∙ c in
            let same : str_eq j k ≡ true = (str_eq_iff j k).1 (cc e) in absurd (cc (same, other))),
        (λ w. absurd (omega (arith, ltb→lt _ _ less, w.0))),
      )
      later other (to, from) (inr more) =
          let past : weight weights j ≤ pick = ground (arith, more) in
          rw other (
            (λ c.
                let (low, high) = to (sym (passed j js pick more) ∙ c) in
                (omega (arith, low, past), omega (arith, high, past))),
            (λ w.
                passed j js pick more ∙ from (omega (arith, w.0, past), omega (arith, w.1, past))),
          )

module _ (F : Floats) (o : IsOrdered F) where
  -- The record is not below this one.
  abbrev AtLeast : CandidateRecord F → CandidateRecord F → Type 0
  AtLeast best r = F.lt best.validation_score r.validation_score ≡ false

  better_of-AtLeast :
      (b : CandidateRecord F) (rs : List (CandidateRecord F))
      → AtLeast (better_of F b rs) b × All (AtLeast (better_of F b rs)) rs
  unfolding better_of
  better_of-AtLeast b [] = (o.lt_irrefl b.validation_score, tt)
  better_of-AtLeast b (r ∷ rs) =
      choose (λ z. better_of-AtLeast z rs) (F.lt b.validation_score r.validation_score) refl
    where
      Best : Bool → Type 0
      Best less =
          let best = better_of F (if less then r else b) rs in
          AtLeast best b × All (AtLeast best) (r ∷ rs)

      choose :
          ((z : CandidateRecord F)
            → AtLeast (better_of F z rs) z × All (AtLeast (better_of F z rs)) rs)
          → (less : Bool) → F.lt b.validation_score r.validation_score ≡ less
          → AtLeast (better_of F b (r ∷ rs)) b × All (AtLeast (better_of F b (r ∷ rs))) (r ∷ rs)
      choose ih true less =
          let (top, rest) = ih r in
          let above : F.lt r.validation_score b.validation_score ≡ false =
            elim (Bool-cases (F.lt r.validation_score b.validation_score)) [
              | inr not_higher ↦ not_higher
              | inl higher ↦
                  absurd (cc (o.lt_trans _ _ _ less higher, o.lt_irrefl b.validation_score))
            ] in
          subst Best (sym less) (nlt_trans F o _ _ _ top above, (top, rest))
      choose ih false less =
          let (top, rest) = ih b in
          subst Best (sym less) (top, (nlt_trans F o _ _ _ top less, rest))

  better_of-has :
      (b : CandidateRecord F) (rs : List (CandidateRecord F))
      → has (better_of F b rs).id (record_ids (b ∷ rs)) ≡ true
  unfolding better_of
  better_of-has b [] = ground (arith, (str_eq_iff b.id b.id).1 refl)
  better_of-has b (r ∷ rs) =
      if-rel (λ (z : CandidateRecord F). has (better_of F z rs).id (record_ids (b ∷ r ∷ rs)) ≡ true)
        (F.lt b.validation_score r.validation_score) r b (λ _. ground (arith, better_of-has r rs))
        (λ _. ground (arith, better_of-has b rs))

  -- On scores that are ordered, the best record by validation is one of the records, by name, and
  -- no record has a higher validation score.
  pub best_by_validation-AtLeast :
      (rs : List (CandidateRecord F)) (best : CandidateRecord F)
      → best_by_validation F rs ≡ some best
      → (has best.id (record_ids rs) ≡ true)
        × All (λ r. F.lt best.validation_score r.validation_score ≡ false) rs
  unfolding best_by_validation
  best_by_validation-AtLeast [] best h = absurd cc
  best_by_validation-AtLeast (b ∷ rs) best h =
      let e : better_of F b rs ≡ best = cc h in
      subst (λ r. (has r.id (record_ids (b ∷ rs)) ≡ true) × All (AtLeast r) (b ∷ rs)) e
        (better_of-has b rs, better_of-AtLeast b rs)
