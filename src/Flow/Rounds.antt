-- ===== src/Flow/Rounds.antt =====
-- pipeline_transition_run.go: a round of the loop of `run`.
use gepago.Base.{
  ℕ, zero, suc, ◌+◌, ◌≤◌, ◌≡◌, refl, sym, subst, true, false, List, arith, ltb, update, inl, inr,
  ap, ◌⊎◌, ◌∙◌, if-rel,
}
use gepago.Base.Action.{
  Out, ok, err, attempt, ◌>>=◌, ◌>>◌, Ends, bind-Ends, then-Ends, get-Ends, modify-Ends,
  attempt-Ends, pure-Ends, fail-Ends, if-Ends, option-Ends, weaken-Ends,
}
use gepago.Flow.Data.{FlowTypes, Plan, FlowEnv, FlowRun, StepError, StepVisit}
use gepago.Flow.Values.{snapshot_all}
use gepago.Flow.Hooks.{outside}
use gepago.Flow.Visit.{begin_visit}
use gepago.Flow.Failure.{Next, at, unfinished}
use gepago.Flow.Loop.{leave_range, pass_over, passed, go_on, end_round, round}
use gepago.Flow.Compiled.{CompiledPlan, Leads, ChosenBy, EndsFrom, AtVisit}
use gepago.Flow.Stays.{outside-Keeps, end_rewind-Ends}
use gepago.Flow.Chosen.{visit-Ends}
use gepago.Flow.Evaluated.{failed-Ends, succeeded-Ends}

-- The visits of the steps once this step has been visited once more.
abbrev pub visited : (ℕ → ℕ) → ℕ → ℕ → ℕ
visited vs i = update vs i (vs i + 1)

module _ (T : FlowTypes) (p : Plan T) (E : FlowEnv T) (spans : List (ℕ × ℕ))
    (compiled : CompiledPlan T spans p) where
  pass_over-visits : (k n : ℕ) (f : FlowRun T) → (pass_over T p E k n f).visits ≡ f.visits
  unfolding pass_over
  pass_over-visits k zero f = refl
  pass_over-visits k (suc n) f =
      if-rel (λ (g : FlowRun T). (pass_over T p E (k + 1) n g).visits ≡ f.visits) (p.target k)
        (record f { before = update f.before k (snapshot_all T f) }) f
        (λ _. pass_over-visits (k + 1) n _) (λ _. pass_over-visits (k + 1) n f)

  leave_range-Ends :
      (vs : ℕ → ℕ) (i : ℕ) (f : FlowRun T)
      → f.visits ≡ vs
      → Ends (AtVisit T vs i) (λ _. AtVisit T vs i) (leave_range T p E i) f
  unfolding leave_range
  leave_range-Ends vs i f same = get-Ends _ (
      option-Ends f.rewind (λ e. pure-Ends tt (same, subst (EndsFrom T i) (sym e) tt))
        (λ r e.
          if-Ends (ltb r.rule.from i) (λ _. end_rewind-Ends T p E vs i true f same)
            (λ inside.
              pure-Ends tt (same, subst (EndsFrom T i) (sym e) (not_left r.rule.from inside)))))
    where
      not_left : (from : ℕ) → ltb from i ≡ false → i ≤ from
      not_left from h = ground (arith, h)

  module _ (vs : ℕ → ℕ) (i : ℕ) where
    abbrev J : FlowRun T → Type 0
    J = AtVisit T vs i

    abbrev Led : Next T → FlowRun T → Type 0
    Led n f = J f × Leads T spans p vs i n

    go_on-Ends :
        (v : StepVisit T) (f : FlowRun T)
        → J f × ChosenBy T spans p vs i v
        → Ends J Led (go_on T p E i v) f
    unfolding go_on
    go_on-Ends v f h =
        option-Ends v.err
          (λ _.
            bind-Ends (succeeded-Ends T p E spans vs i compiled v f h)
              (λ n g k. pure-Ends (at n) k))
          (λ e _. failed-Ends T p E spans vs i compiled v e f h.0)

    -- The visits have been counted, and the run goes on where the rules lead.
    abbrev pub RoundLed : Next T → FlowRun T → Type 0
    RoundLed n f = (f.visits ≡ vs) × Leads T spans p vs i n

    abbrev LedOut : Out (StepError T) (Next T) → Type 0
    LedOut (err e) = Unit
    LedOut (ok n) = Leads T spans p vs i n

    end_round-Ends :
        (o : Out (StepError T) (Next T)) (f : FlowRun T)
        → J f
        → LedOut o
        → Ends J RoundLed (end_round T p E i o) f
    unfolding end_round
    end_round-Ends (err e) f j h =
        then-Ends (end_rewind-Ends T p E vs i true f j.0) (λ _ g k. fail-Ends e k)
    end_round-Ends (ok unfinished) f j h = absurd h
    end_round-Ends (ok (at n)) f j h =
        modify-Ends _ _ (pure-Ends (at n) (pass_over-visits (i + 1) (passed T p E i n) f ∙ j.0, h))

    -- The part of a round after its visit.
    finish-Ends :
        (v : StepVisit T) (f : FlowRun T)
        → J f × ChosenBy T spans p vs i v
        → Ends J RoundLed
            (attempt (go_on T p E i v) >>= λ out.
              outside T (λ w. (tt, E.resolve_step w)) >> end_round T p E i out)
            f
    finish-Ends v f h =
        attempt-Ends (go_on T p E i v) _ (go_on-Ends v f h) (λ e g j. resolved (err e) g j tt)
          (λ n g l. resolved (ok n) g l.0 l.1)
      where
        resolved :
            (o : Out (StepError T) (Next T)) (g : FlowRun T)
            → J g
            → LedOut o
            → Ends J RoundLed (outside T (λ w. (tt, E.resolve_step w)) >> end_round T p E i o) g
        resolved o g j led =
            then-Ends (outside-Keeps T p E vs i _ g j) (λ _ g' k. end_round-Ends o g' k led)

  -- One round visits its step once, unless it fails before, and leads where the rules of the step
  -- allow.
  pub round-Ends :
      (i : ℕ) (f : FlowRun T)
      → (let vs = visited f.visits i in
          Ends (λ g. (g.visits ≡ f.visits) ⊎ (g.visits ≡ vs)) (RoundLed vs i) (round T p E i) f)
  unfolding round begin_visit
  round-Ends i f =
      let vs = visited f.visits i in
      then-Ends
        (weaken-Ends {P' = AtVisit T f.visits i} {Q' = λ _. AtVisit T f.visits i} (λ g j. inl j.0)
          (λ _ g j. j) (leave_range-Ends f.visits i f refl))
        (λ _ g j.
          bind-Ends
            (weaken-Ends {P' = AtVisit T vs i} (λ g' k. inr k.0) (λ v g' k. k)
              (visit-Ends T p E spans vs i compiled g (ap (λ us. visited us i) j.0, j.1)))
            (λ v g' k. weaken-Ends (λ _ l. inr l.0) (λ n g'' l. l) (finish-Ends vs i v g' k)))
