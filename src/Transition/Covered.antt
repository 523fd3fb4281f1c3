-- ===== src/Transition/Covered.antt =====
-- pipeline_transition.go: the ranges that the pass over rules records, and `enter`.
use gepago.Base.{
  ℕ, zero, suc, ◌≡◌, refl, ap, ◌∙◌, Bool, true, false, List, [], ◌∷◌, All, leb, if◌then◌else◌,
  arith,
}
use gepago.Base.Int.{leb_ℤ, pos, ◌+ℤ◌}
use gepago.Transition.Defs.{
  Target, step, end_target, fail_target, TransitionRule, TransitionFacts, mark, cover_span, cover,
  record_rule, record_rules, allows, enter, enter_through, new_transition_facts, has_span,
}
use gepago.Transition.Prefix.{sum_to}
use gepago.Transition.Skipped.{sum_to-zeros}
use gepago.Transition.Counted.{facts_at}
use gepago.Transition.Ranges.{
  mark-Kept, count_ranges, range_with, distinct_ranges, Compiled, record_rules-Agrees,
}

-- The ranges that are recorded, and what has been summed of them.
abbrev Recorded : TransitionFacts → List (ℕ × ℕ) → TransitionFacts → Type 0
Recorded f ps g = (g.spans ≡ ps) × (g.covered ≡ f.covered)

record_rule-Recorded :
    (r : TransitionRule) (n : ℕ) (f : TransitionFacts)
    → Recorded f (range_with r f.spans) (record_rule r n f)
unfolding record_rule cover cover_span
record_rule-Recorded r n f = by_kind r.rewind
  where
    either :
        (t : ℕ) (g : TransitionFacts) (ps qs : List (ℕ × ℕ)) (b : Bool)
        → Recorded f ps f
        → Recorded f qs g
        → Recorded f (if b then ps else qs) (if b then f else g)
    either t g ps qs true x y = x
    either t g ps qs false x y = y

    rewinding :
        (t : Target)
        → Recorded f
            (elim t [
              | step t ↦ if has_span (t, r.from) f.spans then f.spans else (t, r.from) ∷ f.spans
              | end_target ↦ f.spans
              | fail_target ↦ f.spans
            ])
            (elim t [ step t ↦ cover r t f | end_target ↦ f | fail_target ↦ f ])
    rewinding (step t) =
        either t _ f.spans _ (has_span (t, r.from) f.spans) (refl, refl) (refl, refl)
    rewinding end_target = (refl, refl)
    rewinding fail_target = (refl, refl)

    by_kind :
        (b : Bool)
        → Recorded f
            (if b
              then (elim r.to [
                | step t ↦ if has_span (t, r.from) f.spans then f.spans else (t, r.from) ∷ f.spans
                | end_target ↦ f.spans
                | fail_target ↦ f.spans
              ])
              else f.spans)
            (if b
              then (elim r.to [ step t ↦ cover r t f | end_target ↦ f | fail_target ↦ f ])
              else mark r n f)
    by_kind true = rewinding r.to
    by_kind false = ((mark-Kept r n f).spans, (mark-Kept r n f).covered)

pub record_rules-Recorded :
    (rs : List TransitionRule) (n : ℕ) (f : TransitionFacts)
    → Recorded f (distinct_ranges rs f.spans) (record_rules rs n f)
unfolding record_rules
record_rules-Recorded [] n f = (refl, refl)
record_rules-Recorded (r ∷ rs) n f =
    let (s, c) = record_rule-Recorded r n f in
    let (s', c') = record_rules-Recorded rs n (record_rule r n f) in
    (s' ∙ ap (distinct_ranges rs) s, c' ∙ c)

covered-enter_through :
    (i : ℕ) (f : TransitionFacts)
    → ((enter_through i f).covered ≡ sum_to f.ranges f.covered i)
      × ((enter_through i f).ranges ≡ f.ranges)
unfolding enter enter_through
covered-enter_through zero f = (refl, refl)
covered-enter_through (suc i) f =
    let (s, a) = covered-enter_through i f in
    (
      ap (λ x. x +ℤ (enter_through i f).ranges (suc i)) s
          ∙ ap (λ a. sum_to f.ranges f.covered i +ℤ a (suc i)) a,
      a,
    )

-- When Build's pass over steps is at a step, `covered`, which it sums from the bounds that the pass
-- over compiled rules left, is the number of distinct rewind ranges that hold the step, and
-- `enter` reports whether that is at most one.
pub covered-count :
    (rs : List TransitionRule) (n i : ℕ)
    → All Compiled rs
    → ((facts_at rs n i).covered ≡ pos (count_ranges i (distinct_ranges rs [])))
      × (allows (facts_at rs n i) ≡ leb (count_ranges i (distinct_ranges rs [])) 1)
unfolding allows
covered-count rs n i compiled =
    let f = record_rules rs n new_transition_facts in
    let (ranges, covered) = record_rules-Recorded rs n new_transition_facts in
    let count : (facts_at rs n i).covered ≡ pos (count_ranges i (distinct_ranges rs [])) =
      (covered-enter_through i f).0
      ∙ ap (λ z. sum_to f.ranges z i) covered
      ∙ record_rules-Agrees rs n i new_transition_facts compiled (sum_to-zeros i)
      ∙ ap (λ ps. pos (count_ranges i ps)) ranges in
    (count, ap (λ z. leb_ℤ z (pos 1)) count ∙ ground arith)
