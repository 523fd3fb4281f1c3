-- ===== src/Transition/Plans.antt =====
-- pipeline_transition.go and pipeline_transition_run.go: a run along the transitions that Build passes.
use gepago.Base.{
  ℕ, zero, suc, ◌<◌, ◌≤◌, ◌≡◌, refl, ap, sym, ◌∙◌, subst, String, true, false, Option, some, List,
  [], All, All-map, arith, leb, leb→le, ◌==◌, Bool-cases, inl, inr,
}
use gepago.Base.Int.{ℤ}
use gepago.Base.Action.{Out, ok}
use gepago.Transition.Defs.{Target, step, end_target, fail_target, has_span, enter_through, allows}
use gepago.Transition.Ranges.{Compiled, holds, count_ranges}
use gepago.Transition.Covered.{covered-count}
use gepago.Transition.Spans.{distinct_ranges-All, has_span-All, one_range}
use gepago.Flow.Data.{FlowTypes, Keys, Values, Node, Plan, FlowEnv, FlowRun, StepError}
use gepago.Flow.Loop.{run_flow}
use gepago.Flow.Compiled.{CompiledPlan, SpansApart}
use gepago.Flow.Ending.{most_rounds, run_flow-ends}
use gepago.Flow.Visits.{run_flow-visits_le}
use gepago.Transition.Compile.{NamedSteps, Transition, CompiledRule, facts_rule, goes_back_to}
use gepago.Transition.Table.{
  TransitionTable, facts_of, table_of, check_transitions, enters, plan_of,
}
use gepago.Transition.Sound.{NamesSteps, SoundRule}
use gepago.Transition.Built.{
  GoodTable, check_transitions-GoodTable, the_rules, the_spans, facts_of-spans, rules_of-RuleAt,
  All-map_facts, sound-AimsRight,
}

module _ (T : FlowTypes) (node : ℕ → Node T) (s : NamedSteps) (names : NamesSteps s)
    (merges : String → Option (T.Value → T.Value → Out T.Error T.Value))
    (convert : String → T.Value → Out T.Error T.Value) where
  abbrev the_plan : TransitionTable T → Plan T
  the_plan t = plan_of T node s t merges convert

  module _ (most : ℕ → ℕ) (rs : List (CompiledRule T))
      (sound : All (SoundRule T node s most) rs) where
    abbrev spans : List (ℕ × ℕ)
    spans = the_spans T node s names most rs

    table_of-CompiledPlan : CompiledPlan T spans (the_plan (table_of T node s most rs))
    table_of-CompiledPlan =
        let aims = sound-AimsRight T node s names most rs sound in
        record {
          success = λ i. rules_of-RuleAt T node s names spans false i rs aims;
          failure = λ i. rules_of-RuleAt T node s names spans true i rs aims;
        }

    -- A range goes forward, from a step that may be visited twice to a step of the pipeline.
    abbrev FineSpan : ℕ × ℕ → Type 0
    FineSpan (a, b) = (a ≤ b) × (2 ≤ most a) × (b < s.count)

    spans-FineSpan : All FineSpan spans
    spans-FineSpan =
        distinct_ranges-All FineSpan (the_rules T node s names most rs) []
          (All-map_facts T node s names
            (λ r. (t : ℕ) → r.to ≡ step t → r.rewind ≡ true → FineSpan (t, r.from)) rs
            (All-map rs fine sound))
          tt
      where
        fine :
            (r : CompiledRule T)
            → SoundRule T node s most r
            → (t : ℕ) → r.rule.to ≡ step t
            → r.rule.rewind ≡ true
            → FineSpan (t, r.rule.from)
        fine r sound t to back =
            let before : leb t r.rule.from ≡ true =
              ap (goes_back_to T node s r.rule.from) (sym to) ∙ sym sound.rewinds ∙ back in
            (leb→le t r.rule.from before, sound.allowed t to back, sound.inside)

    rules-Compiled : All Compiled (the_rules T node s names most rs)
    rules-Compiled = All-map_facts T node s names Compiled rs (All-map rs compiled sound)
      where
        same :
            (from : ℕ) (t : Target)
            → goes_back_to T node s from t
              ≡ (elim t [ step t ↦ leb t from | end_target ↦ false | fail_target ↦ false ])
        same from (step t) = refl
        same from end_target = refl
        same from fail_target = refl

        compiled : (r : CompiledRule T) → SoundRule T node s most r → Compiled (facts_rule T r)
        compiled r sound = sound.rewinds ∙ same r.rule.from r.rule.to

    -- Where Build's pass over the steps refuses none, at most one range holds each of them.
    enters-count :
        (k n : ℕ)
        → enters T node s n (facts_of T s.count rs) ≡ true
        → k < n
        → count_ranges k spans ≤ 1
    unfolding enters
    enters-count k zero h lt = absurd (omega (arith, lt))
    enters-count k (suc n) h lt = elim (Bool-cases (k == n)) [
      | inl here ↦
          let same : k ≡ n = ground (arith, here) in
          let passes : allows (enter_through n (facts_of T s.count rs)) ≡ true =
            ground (arith, h) in
          let (_, exact) =
            covered-count (the_rules T node s names most rs) s.count n rules-Compiled in
          subst (λ j. count_ranges j spans ≤ 1) (sym same) (leb→le _ 1 (sym exact ∙ passes))
      | inr other ↦
          let below : k < n = ground (arith, lt, other) in
          let before : enters T node s n (facts_of T s.count rs) ≡ true = ground (arith, h) in
          enters-count k n before below
    ]

    table_of-SpansApart :
        enters T node s s.count (facts_of T s.count rs) ≡ true
        → SpansApart T spans (the_plan (table_of T node s most rs))
    table_of-SpansApart h = record {
      ordered = λ a b held. (has_span-All FineSpan a b spans spans-FineSpan held).0;
      apart = λ a b c d k held held' here here'.
          let inside : b < s.count = (has_span-All FineSpan a b spans spans-FineSpan held).2 in
          one_range k a b c d spans (enters-count k s.count h (omega (arith, inside, here.1))) held
            held' (holds_at a b k here) (holds_at c d k here');
      allowed = λ a b held.
          let twice : 2 ≤ most a = (has_span-All FineSpan a b spans spans-FineSpan held).1 in
          omega (arith, twice);
    }
      where
        holds_at : (a b k : ℕ) → (a ≤ k) × (k ≤ b) → holds k (a, b) ≡ true
        holds_at a b k (before, after) = ground (arith, before, after)

  -- The rules of a table that `checkTransitions` fills are compiled as runs need them.
  check_transitions-CompiledPlan :
      (visits : List (String × ℤ)) (ts : List (Transition T)) (t : TransitionTable T)
      → check_transitions T node s visits ts ≡ ok t
      → CompiledPlan T t.facts.spans (the_plan t)
  check_transitions-CompiledPlan visits ts t h =
      let good =
        subst (GoodTable T node s names) h (check_transitions-GoodTable T node s names visits ts) in
      from_table t good
    where
      from_table :
          (t : TransitionTable T)
          → GoodTable T node s names (ok t)
          → CompiledPlan T t.facts.spans (the_plan t)
      from_table t (most, rs, same, sound) =
          subst (λ u. CompiledPlan T u.facts.spans (the_plan u)) (sym same)
            (subst (λ ps. CompiledPlan T ps (the_plan (table_of T node s most rs)))
              (sym (facts_of-spans T node s names most rs)) (table_of-CompiledPlan most rs sound))

  check_transitions-SpansApart :
      (visits : List (String × ℤ)) (ts : List (Transition T)) (t : TransitionTable T)
      → check_transitions T node s visits ts ≡ ok t
      → enters T node s s.count t.facts ≡ true
      → SpansApart T t.facts.spans (the_plan t)
  check_transitions-SpansApart visits ts t h enters_all =
      let good =
        subst (GoodTable T node s names) h (check_transitions-GoodTable T node s names visits ts) in
      from_table t good enters_all
    where
      from_table :
          (t : TransitionTable T)
          → GoodTable T node s names (ok t)
          → enters T node s s.count t.facts ≡ true
          → SpansApart T t.facts.spans (the_plan t)
      from_table t (most, rs, same, sound) h =
          subst (λ u. SpansApart T u.facts.spans (the_plan u)) (sym same)
            (subst (λ ps. SpansApart T ps (the_plan (table_of T node s most rs)))
              (sym (facts_of-spans T node s names most rs))
              (table_of-SpansApart most rs sound
                (ap (λ (u : TransitionTable T). enters T node s s.count u.facts) (sym same) ∙ h)))

  -- A run along transitions that Build passes ends, on any fuel above a bound that `MaxVisits` and the
  -- number of steps give, and has visited no target of a rewind more often than `MaxVisits` allows.
  -- Build passes them when `checkTransitions` returns no error and its pass over the steps, `enter` at
  -- each, refuses none.
  pub check_transitions-run_flow :
      (E : FlowEnv T) (visits : List (String × ℤ)) (ts : List (Transition T))
      (t : TransitionTable T) (fuel : ℕ) (values : Values T) (defaulted : Keys) (w : T.World)
      (i from : ℕ)
      → check_transitions T node s visits ts ≡ ok t
      → enters T node s s.count t.facts ≡ true
      → most_rounds T (the_plan t) < fuel
      → has_span (i, from) t.facts.spans ≡ true
      → (e : Out (StepError T) (Unit {0}) × FlowRun T) × (run_flow T
            (the_plan t)
            E
            fuel
            values
            defaulted
            w
          ≡ some e)
        × (e.1.visits i ≤ t.max_visits i)
  check_transitions-run_flow E visits ts t fuel values defaulted w i from h enters_all enough held =
      let compiled = check_transitions-CompiledPlan visits ts t h in
      let laid = check_transitions-SpansApart visits ts t h enters_all in
      let (e, ended) =
        run_flow-ends T (the_plan t) E t.facts.spans compiled fuel values defaulted w enough in
      (
        e,
        ended,
        run_flow-visits_le T (the_plan t) E t.facts.spans compiled laid fuel values defaulted w e i
            from ended held,
      )
