-- ===== src/Flow/Chosen.antt =====
-- pipeline_transition_run.go: the rule that a visit follows.
use gepago.Base.{
  ℕ, ◌<◌, ◌≤◌, ◌≡◌, refl, subst, Bool, true, false, Option, none, some, List, [], ◌∷◌, All, arith,
  inl, inr, ◌&&◌, ◌==◌, if-rel, if◌then◌else◌,
}
use gepago.Base.Action.{
  Out, ok, err, Ends, bind-Ends, then-Ends, get-Ends, modify-Ends, pure-Ends, if-Ends, option-Ends,
  out-Ends,
}
use gepago.Transition.Defs.{Target, step, end_target, fail_target}
use gepago.Flow.Data.{
  FlowTypes, Keys, Values, FlowRule, Plan, FlowEnv, FlowRun, PendingRewind, StepResult, StepVisit,
}
use gepago.Flow.Values.{no_values, merge_writes}
use gepago.Flow.Hooks.{landing, lands, exhausted, check_visits}
use gepago.Flow.Visit.{
  ending_at, judge, accept_visit, amend_visit, end_visit, choose_rule, choose, decide, check_result,
  begin_visit, take_amended, finish_visit, visit,
}
use gepago.Flow.Compiled.{Aims, RuleAt, CompiledPlan, GoesAt, GoesTo, ChosenBy, EndsFrom, AtVisit}
use gepago.Flow.Stays.{outside-Keeps, call_when-Keeps, call_accept-Keeps, call_amend-Keeps}

module _ (T : FlowTypes) (p : Plan T) (E : FlowEnv T) (spans : List (ℕ × ℕ)) (vs : ℕ → ℕ)
    (i : ℕ) where
  abbrev J : FlowRun T → Type 0
  J = AtVisit T vs i

  abbrev Goes : FlowRule T → Type 0
  Goes = GoesTo T spans p vs i

  -- A rewind may be taken while its target has been visited less often than `MaxVisits`.
  pub goes_back :
      (r : FlowRule T)
      → RuleAt T spans i r
      → r.rewind ≡ true
      → vs (landing T p E r) < p.max_visits (landing T p E r)
      → Goes r
  goes_back r (from, aims) back few =
      let le : i ≤ r.from = omega (arith, from) in (le, go r.to r.rewind aims back few)
    where
      go :
          (t : Target) (b : Bool)
          → Aims T spans i t b
          → b ≡ true
          → vs (lands t) < p.max_visits (lands t)
          → GoesAt T spans p vs i t
      go (step t) true (le, span) e few = inr (le, span, few)
      go (step t) false h e few = absurd (cc)
      go end_target b h e few = tt
      go fail_target b h e few = tt

  -- A rule of this step or a later one that is not a rewind leads past this step.
  pub goes_on : (k : ℕ) (r : FlowRule T) → RuleAt T spans k r → i ≤ k → r.rewind ≡ false → Goes r
  goes_on k r (from, aims) le forward =
      let later : i ≤ r.from = omega (arith, from, le) in (later, go r.to r.rewind aims forward)
    where
      go : (t : Target) (b : Bool) → Aims T spans k t b → b ≡ false → GoesAt T spans p vs i t
      go (step t) true h e = absurd (cc)
      go (step t) false lt e = inl (omega (arith, le, lt))
      go end_target b h e = tt
      go fail_target b h e = tt

  pub check_visits-few :
      (f : FlowRun T) (r : FlowRule T)
      → J f
      → check_visits T p E f r ≡ none
      → vs (landing T p E r) < p.max_visits (landing T p E r)
  unfolding check_visits exhausted
  check_visits-few f r (same, _) h =
      subst (λ (v : ℕ → ℕ). v (landing T p E r) < p.max_visits (landing T p E r)) same
        (ground (arith, h))

  abbrev Chosen : StepVisit T → FlowRun T → Type 0
  Chosen v f = J f × ChosenBy T spans p vs i v

  judge-Ends :
      (v : StepVisit T) (pending : Values T) (f : FlowRun T)
      → Chosen v f
      → Ends J (λ o. Chosen o.0) (judge T p E i v pending) f
  unfolding judge accept_visit
  judge-Ends v pending f (j, chosen) = get-Ends _ (
      option-Ends (ending_at T p E i f) (λ _. pure-Ends _ (j, chosen))
        (λ r _.
          bind-Ends (call_accept-Keeps T p E vs i r.rule _ _ f j)
            (λ accepted g k. pure-Ends _ (k, judged accepted r))))
    where
      judged :
          (o : Out T.Error Bool) (r : PendingRewind T)
          → ChosenBy T spans p vs i (accept_visit T p E v pending f r o).0
      judged (err e) r = chosen
      judged (ok true) r = chosen
      judged (ok false) r = chosen

  choose_rule-Ends :
      (v : StepVisit T) (values : Values T) (types : Keys) (r : FlowRule T) (f : FlowRun T)
      → RuleAt T spans i r
      → Chosen v f
      → Ends J Chosen (choose_rule T p E v values types r) f
  unfolding choose_rule amend_visit
  choose_rule-Ends v values types r f rule (j, chosen) =
      if-Ends r.rewind
        (λ back. get-Ends _ (
          option-Ends (check_visits T p E f r)
            (λ few. bind-Ends (call_amend-Keeps T p E vs i r _ _ f j) (λ amended g k.
              pure-Ends _
                (k, amended_visit amended (goes_back r rule back (check_visits-few f r j few)))))
            (λ e _. pure-Ends _ (j, chosen))))
        (λ forward. pure-Ends _ (j, goes_on i r rule (omega arith) forward))
    where
      amended_visit :
          (o : Out T.Error (Option (Values T)))
          → Goes r
          → ChosenBy T spans p vs i (amend_visit T p E v r o)
      amended_visit (err e) goes = chosen
      amended_visit (ok a) goes = goes

  choose-Ends :
      (v : StepVisit T) (values : Values T) (types : Keys) (rs : List (FlowRule T)) (f : FlowRun T)
      → All (RuleAt T spans i) rs
      → Chosen v f
      → Ends J Chosen (choose T p E v values types rs) f
  unfolding choose
  choose-Ends v values types [] f rules h = pure-Ends _ h
  choose-Ends v values types (r ∷ rs) f (rule, rules) (j, chosen) =
      if-Ends (v.rejected && r.rewind) (λ _. choose-Ends v values types rs f rules (j, chosen))
        (λ _. bind-Ends (call_when-Keeps T p E vs i r _ none f j) (λ matched g k.
          out-Ends matched (λ e _. pure-Ends _ (k, chosen))
            (λ b _.
              if-Ends b (λ _. choose_rule-Ends v values types r g rule (k, chosen))
                (λ _. choose-Ends v values types rs g rules (k, chosen)))))

  module _ (compiled : CompiledPlan T spans p) where
    decide-Ends :
        (v : StepVisit T) (pending : Values T) (f : FlowRun T)
        → Chosen v f
        → Ends J Chosen (decide T p E i v pending) f
    unfolding decide
    decide-Ends v pending f h = bind-Ends (judge-Ends v pending f h) (λ o g k.
        if-Ends o.0.accept_failed (λ _. pure-Ends _ k)
          (λ _. choose-Ends o.0 o.1 _ (p.success i) g (compiled.success i) k))

    check_result-Ends :
        (v : StepVisit T) (result : StepResult T) (f : FlowRun T)
        → Chosen v f
        → Ends J Chosen (check_result T p E i v result) f
    unfolding check_result
    check_result-Ends v result f h = get-Ends _ (
        out-Ends
          (merge_writes T p E (p.node i).write_names result.writes f.values f.defaulted
            (no_values T))
          (λ e _. pure-Ends _ h) (λ committed _. decide-Ends _ _ f h))

    finish_visit-Ends :
        (v : StepVisit T) (out : Out T.Error (StepResult T)) (f : FlowRun T)
        → Chosen v f
        → Ends J Chosen (finish_visit T p E i v out) f
    unfolding finish_visit end_visit
    finish_visit-Ends v (err e) f h =
        then-Ends (outside-Keeps T p E vs i _ f h.0) (λ _ g k. pure-Ends _ (k, tt))
    finish_visit-Ends v (ok result) f h = bind-Ends (check_result-Ends v result f h) (λ c g k.
        then-Ends (outside-Keeps T p E vs i _ g k.0)
          (λ _ g' k'. pure-Ends _ (k', ended c c.err k.1)))
      where
        ended :
            (c : StepVisit T) (o : Option T.Error)
            → ChosenBy T spans p vs i c
            → ChosenBy T spans p vs i (end_visit T p E c result.staged o)
        ended c none h = h
        ended c (some e) h = tt

    -- The rewind that is pending keeps its range when the visit takes what `Amend` set.
    take_amended-AtVisit : (f : FlowRun T) → J f → J (take_amended T p E i f)
    unfolding take_amended
    take_amended-AtVisit f (same, h) = go f.rewind refl h
      where
        go :
            (o : Option (PendingRewind T))
            → f.rewind ≡ o
            → EndsFrom T i o
            → J (elim o [
              | none ↦ f
              | some r ↦
                  if landing T p E r.rule == i
                  then record f { rewind = some (record r { amended = none }) }
                  else f
            ])
        go none e h' = (same, h)
        go (some r) e h' =
            if-rel J (landing T p E r.rule == i) _ f (λ _. (same, h')) (λ _. (same, h))

    -- A visit of a step follows a rule of the step.
    pub visit-Ends : (f : FlowRun T) → J (begin_visit T p E i f) → Ends J Chosen (visit T p E i) f
    unfolding visit
    visit-Ends f h =
        let g = begin_visit T p E i f in
        modify-Ends _ _ (
          get-Ends _ (
            modify-Ends _ _ (
              bind-Ends (outside-Keeps T p E vs i _ _ (take_amended-AtVisit g h))
                (λ result g' k. finish_visit-Ends _ result g' (k, tt)))))
