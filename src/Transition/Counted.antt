-- ===== src/Transition/Counted.antt =====
-- pipeline_transition.go: what the pass over steps arrives at.
use gepago.Base.{
  if-rel, ℕ, ◌+◌, ◌≡◌, refl, ap, ◌∙◌, not, ◌&&◌, Option, none, some, List, [], ◌∷◌, ltb,
  if◌then◌else◌,
}
use gepago.Base.Int.{pos, ◌+ℤ◌}
use gepago.Transition.Defs.{
  Target, step, end_target, fail_target, TransitionRule, TransitionFacts, skip, mark_to, mark,
  cover_span, cover, record_rule, record_rules, enter_through, new_transition_facts, set_at,
  has_span,
}
use gepago.Transition.Prefix.{sum_to, zero_add}
use gepago.Transition.Skipped.{
  skipping-enter_through, sum_to-record_rules, sum_to-zeros, count_skips,
}

-- What the pass over rules leaves alone.
abbrev Same : TransitionFacts → TransitionFacts → Type 0
Same f g = g.skipping ≡ f.skipping

mark_to-Same : (r : TransitionRule) (to : ℕ) (f : TransitionFacts) → Same f (mark_to r to f)
unfolding mark_to skip
mark_to-Same r to f =
    let g = skip (r.from + 1) to f in
    let same : Same f g = if-rel (Same f) (ltb (r.from + 1) to) _ f (λ _. refl) (λ _. refl) in
    if-rel (Same f) r.on_error _ _ (λ _. first same (g.on_error_by r.from))
      (λ _. if-rel (Same f) (g.closed r.from) _ _ (λ _. same) (λ _. same))
  where
    first :
        Same f (skip (r.from + 1) to f)
        → (o : Option ℕ)
        → Same f (elim o [
          | some _ ↦ skip (r.from + 1) to f
          | none ↦ record (skip (r.from + 1) to f) {
            on_error_by = set_at (skip (r.from + 1) to f).on_error_by r.from (some r.index);
          }
        ])
    first same none = same
    first same (some e) = same

mark-Same : (r : TransitionRule) (n : ℕ) (f : TransitionFacts) → Same f (mark r n f)
unfolding mark
mark-Same r n f = by_target r.to
  where
    by_target :
        (t : Target)
        → Same f (elim t [
          | fail_target ↦
              if not r.on_error && not (f.closed r.from)
              then record f { closed = set_at f.closed r.from r.always }
              else f
          | end_target ↦ mark_to r n f
          | step t ↦ mark_to r t f
        ])
    by_target fail_target =
        if-rel (Same f) (not r.on_error && not (f.closed r.from)) _ f (λ _. refl) (λ _. refl)
    by_target end_target = mark_to-Same r n f
    by_target (step t) = mark_to-Same r t f

record_rule-Same : (r : TransitionRule) (n : ℕ) (f : TransitionFacts) → Same f (record_rule r n f)
unfolding record_rule cover cover_span
record_rule-Same r n f = if-rel (Same f) r.rewind _ _ (λ _. rewinding r.to) (λ _. mark-Same r n f)
  where
    rewinding :
        (t : Target) → Same f (elim t [ step t ↦ cover r t f | end_target ↦ f | fail_target ↦ f ])
    rewinding (step t) = if-rel (Same f) (has_span (t, r.from) f.spans) f _ (λ _. refl) (λ _. refl)
    rewinding end_target = refl
    rewinding fail_target = refl

record_rules-Same :
    (rs : List TransitionRule) (n : ℕ) (f : TransitionFacts) → Same f (record_rules rs n f)
unfolding record_rules
record_rules-Same [] n f = refl
record_rules-Same (r ∷ rs) n f = record_rules-Same rs n (record_rule r n f) ∙ record_rule-Same r n f

-- The facts when the pass over steps is at a step.
abbrev pub facts_at : List TransitionRule → ℕ → ℕ → TransitionFacts
facts_at rs n i = enter_through i (record_rules rs n new_transition_facts)

-- When Build's pass over steps is at a step, `skipping`, which it sums from the bounds that the
-- pass over rules left, is the number of rules that skip over the step.
pub skipping-count :
    (rs : List TransitionRule) (n i : ℕ) → (facts_at rs n i).skipping ≡ pos (count_skips rs i n)
skipping-count rs n i =
    let f = record_rules rs n new_transition_facts in
    let (s, _, _) = skipping-enter_through i f in
    s
    ∙ ap (λ z. sum_to f.skips_at z i) (record_rules-Same rs n new_transition_facts)
    ∙ sum_to-record_rules rs n new_transition_facts i (pos 0)
    ∙ ap (λ x. x +ℤ pos (count_skips rs i n)) (sum_to-zeros i)
    ∙ zero_add (pos (count_skips rs i n))
