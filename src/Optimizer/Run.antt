-- ===== src/Optimizer/Run.antt =====
-- `initializeState`, `runIteration` and the loop of `Run`, of optimizer.go.
use gepago.Base.{
  ℕ, zero, suc, ◌-◌, ◌≤◌, ◌<◌, ◌≡◌, refl, sym, ap, subst, if-rel, Bool, true, false, Option, some,
  arith, length, ltb, if◌then◌else◌,
}
use gepago.Base.Int.{pos}
use gepago.Floats.{Floats}
use gepago.Frontier.Defs.{CandidateRecord}
use gepago.Optimizer.Data.{Types, OptimizationState, OptimizationConfig, Env}
use gepago.Optimizer.Scores.{validation_set}
use gepago.Optimizer.Monad.{St, Out, ok, err}
use gepago.Optimizer.Steps.{Proposed, stop, attempt, emit, save, evaluate}
use gepago.Optimizer.Loop.{follow_proposal, run_iteration, run_loop, new_state, initialize_state}
use gepago.Optimizer.Keeps.{
  Ended, Ends, bind-Ends, then-Ends, get-Ends, outside-Ends, modify-Ends, check-Ends,
  check_last-Ends, pure-Ends, weaken-Ends,
}
use gepago.Optimizer.Invariant.{Inv, has-append_last}
use gepago.Optimizer.Counts.{Inv-lower}
use gepago.Optimizer.Progress.{
  After, evaluate_proposal-Keeps, after_proposal-Keeps, propose_for_iteration-Ends,
}

module _ (F : Floats) (T : Types) (c : OptimizationConfig F T) (E : Env F T) where
  -- An iteration that does not stop the loop has raised the metric calls.
  abbrev pub Went : ℕ → Bool → OptimizationState F T → Type 0
  Went k true s = Inv F T c k s
  Went k false s = Inv F T c (suc k) s

  raised-Went : {k : ℕ} {s : OptimizationState F T} (b : Bool) → Inv F T c (suc k) s → Went k b s
  raised-Went {k} true i = Inv-lower F T c k (suc k) (omega arith) i
  raised-Went false i = i

  follow_proposal-Ends :
      {k : ℕ} {st : St F T} (parent : CandidateRecord F) (p : Proposed F T)
      → After F T c E k p st.state
      → Ends (Inv F T c k) (Went k) (follow_proposal F T c E parent p) st
  unfolding follow_proposal
  follow_proposal-Ends parent stop i = pure-Ends true i
  follow_proposal-Ends {k} {st} parent (attempt a) i =
      weaken-Ends {Y = Inv F T c (suc k)} {R = λ b. Inv F T c (suc k)}
        (λ s. Inv-lower F T c k (suc k) (omega arith)) (λ b s. raised-Went b)
        (bind-Ends (evaluate_proposal-Keeps F T c E (suc k) parent a st i)
          (λ b st1 i1. after_proposal-Keeps F T c E (suc k) b st1 i1))

  -- In an iteration begun within the budget, whatever the evaluator, the proposers, the observers
  -- and persistence answer, and whether it fails or not: the metric calls do not fall and stay
  -- within `MaxMetricCalls`, the ledger agrees with them, the frontier is that of the candidates,
  -- the best candidate is one of them and there are at most 25 lessons; and an iteration that
  -- neither fails nor stops the loop has raised the metric calls.
  pub run_iteration-Inv :
      (k : ℕ) (st : St F T)
      → Inv F T c k st.state
      → Ends (Inv F T c k) (Went k) (run_iteration F T c E) st
  unfolding run_iteration
  run_iteration-Inv k st i = modify-Ends _ _ (
      get-Ends _ (
        bind-Ends
          (propose_for_iteration-Ends F T c E _ _ _ (record {
            grown = i.grown;
            bounded = i.bounded;
            counted = i.counted;
            front = i.front;
            best = i.best;
            taught = i.taught;
          }))
          (λ p st1 i1. follow_proposal-Ends _ p i1)))

  -- What the loop has where it has ended.
  abbrev pub Stopped : ℕ → Option (Out T.Error (Unit {0}) × St F T) → Type 0
  Stopped k r = (e : Out T.Error (Unit {0}) × St F T) × r ≡ some e × Inv F T c k e.1.state

  abbrev next : ℕ → Out T.Error Bool × St F T → Option (Out T.Error (Unit {0}) × St F T)
  next fuel (err e, st) = some (err e, st)
  next fuel (ok true, st) = some (ok tt, st)
  next fuel (ok false, st) = run_loop F T c E fuel st

  next-elim :
      (fuel : ℕ) (r : Out T.Error Bool × St F T)
      → elim r.0 [
        | err e ↦ some (err e, r.1)
        | ok stopped ↦ elim stopped [ true ↦ some (ok tt, r.1) | false ↦ run_loop F T c E fuel r.1 ]
      ]
        ≡ next fuel r
  next-elim fuel (err e, st) = refl
  next-elim fuel (ok true, st) = refl
  next-elim fuel (ok false, st) = refl

  -- One round of the loop.
  run_loop-suc :
      (fuel : ℕ) (st : St F T)
      → run_loop F T c E (suc fuel) st ≡ (
          if ltb st.state.metric_calls c.max_metric_calls
          then next fuel (run_iteration F T c E st)
          else some (ok tt, st))
  unfolding run_loop
  run_loop-suc fuel st =
      ap (λ r. if ltb st.state.metric_calls c.max_metric_calls then r else some (ok tt, st))
        (next-elim fuel (run_iteration F T c E st))

  abbrev Ending : ℕ → Type 0
  Ending fuel =
      (st : St F T) (k : ℕ)
      → Inv F T c k st.state
      → c.max_metric_calls - k < fuel
      → Stopped k (run_loop F T c E fuel st)

  next-ends :
      (fuel k : ℕ)
      → Ending fuel
      → c.max_metric_calls - k < suc fuel
      → (r : Out T.Error Bool × St F T) → Ended (Inv F T c k) (Went k) r
      → Stopped k (next fuel r)
  next-ends fuel k rest h (err e, st) i = ((err e, st), refl, i)
  next-ends fuel k rest h (ok true, st) i = ((ok tt, st), refl, i)
  next-ends fuel k rest h (ok false, st) i =
      let (r, e, j) = rest st (suc k) i (omega (arith, h, i.grown, i.bounded)) in
      (r, e, Inv-lower F T c k (suc k) (omega arith) j)

  -- The loop ends, on any fuel above what is left of the metric calls, and its state is still
  -- within the invariant: in particular no more than `MaxMetricCalls` are spent.
  pub run_loop-ends :
      (fuel : ℕ) (st : St F T) (k : ℕ)
      → Inv F T c k st.state
      → c.max_metric_calls - k < fuel
      → Stopped k (run_loop F T c E fuel st)
  run_loop-ends zero st k i h = absurd (omega (arith, h))
  run_loop-ends (suc fuel) st k i h = subst (Stopped k) (sym (run_loop-suc fuel st)) (
      if-rel (Stopped k) (ltb st.state.metric_calls c.max_metric_calls) _ _
        (λ _. next-ends fuel k (run_loop-ends fuel) h _ (run_iteration-Inv k st i).ended)
        (λ _. ((ok tt, st), refl, i)))

  abbrev Started : ℕ → OptimizationState F T → Type 0
  Started n s = (s.metric_calls ≡ n) × (length s.lessons ≤ 25)

  abbrev Seeded : OptimizationState F T → Type 0
  Seeded s =
      (s.metric_calls ≤ c.max_metric_calls)
      × (s.ledger.metric_calls ≡ pos s.metric_calls)
      × (length s.lessons ≤ 25)

  abbrev pub Bounded : OptimizationState F T → Type 0
  Bounded s = s.metric_calls ≤ c.max_metric_calls

  -- With a budget that the validation set fits, `initializeState` keeps the metric calls within the budget, and where it does not fail the
  -- invariant holds.
  pub initialize_state-Inv :
      (st : St F T)
      → length (validation_set F T c) ≤ c.max_metric_calls
      → Ends Bounded (λ _. Inv F T c 0) (initialize_state F T c E) st
  unfolding initialize_state new_state emit evaluate save
  initialize_state-Inv st fits = outside-Ends _ _ (λ run_id w0. modify-Ends _ _ (
      get-Ends _ (
        then-Ends {R = λ _. Started 0}
          (outside-Ends _ _ (λ e w. check_last-Ends e (omega arith) (refl, omega arith)))
          (λ _ st1 s1.
            bind-Ends {R = λ val. Seeded}
              (outside-Ends _ _ (λ re w. get-Ends _ (
                modify-Ends _ _ (
                  check-Ends _ _ (omega (arith, s1.0)) (
                    check-Ends _ _ (omega (arith, s1.0))
                      (modify-Ends _ _ (pure-Ends _ (omega (arith, s1.0, fits), refl, s1.1))))))))
              (λ val st2 s2. outside-Ends _ _ (λ id w. modify-Ends _ _ (
                get-Ends _ (
                  outside-Ends _ _ (λ e w'. check_last-Ends e s2.0 (record {
                    grown = omega arith;
                    bounded = s2.0;
                    counted = s2.1;
                    front = refl;
                    best = has-append_last st2.state.candidates _;
                    taught = s2.2;
                  }))))))))))
