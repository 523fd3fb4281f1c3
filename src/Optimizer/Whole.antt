-- ===== src/Optimizer/Whole.antt =====
-- optimizer.go: `Run`, from its configuration to its end.
use gepago.Base.{ℕ, ◌≤◌, ◌<◌, ◌≡◌, refl, ap, true, Option, none, some, arith, length}
use gepago.Floats.{Floats}
use gepago.Optimizer.Data.{Types, OptimizationConfig, Env}
use gepago.Optimizer.Scores.{validation_set, config_valid}
use gepago.Optimizer.Monad.{St, Out, ok, err}
use gepago.Optimizer.Loop.{run, run_loop, initialize_state, finish_state, after_loop}
use gepago.Optimizer.Keeps.{Ended, Keeps, then-Ends, get-Ends}
use gepago.Optimizer.Invariant.{Inv, emit-Keeps, save-Keeps}
use gepago.Optimizer.Run.{Bounded, run_loop-ends, initialize_state-Inv}

module _ (F : Floats) (T : Types) (c : OptimizationConfig F T) (E : Env F T) where
  -- The run has ended, within the budget.
  abbrev pub EndsBounded : Option (Out T.Error (Unit {0}) × St F T) → Type 0
  EndsBounded r =
      (e : Out T.Error (Unit {0}) × St F T) × r ≡ some e
      × e.1.state.metric_calls ≤ c.max_metric_calls

  finish_state-Keeps : (k : ℕ) → Keeps (Inv F T c k) (finish_state F T c E)
  unfolding finish_state
  finish_state-Keeps k st i =
      get-Ends _ (then-Ends (emit-Keeps F T c E k _ st i) (λ _ st1 i1. save-Keeps F T c E k st1 i1))

  Ended-Inv :
      (k : ℕ) (e : Out T.Error (Unit {0}) × St F T)
      → Ended (Inv F T c k) (λ _. Inv F T c k) e
      → Inv F T c k e.1.state
  Ended-Inv k (ok u, st) i = i
  Ended-Inv k (err e, st) i = i

  pub after_loop-Inv :
      (k : ℕ) (e : Out T.Error (Unit {0}) × St F T)
      → Inv F T c k e.1.state
      → Inv F T c k (after_loop F T c E e.0 e.1).1.state
  unfolding after_loop
  after_loop-Inv k (ok u, st) i = Ended-Inv k _ (finish_state-Keeps k st i).ended
  after_loop-Inv k (err e, st) i = i

  abbrev pub finished :
      Option (Out T.Error (Unit {0}) × St F T) → Option (Out T.Error (Unit {0}) × St F T)
  finished none = none
  finished (some (r, st)) = some (after_loop F T c E r st)

  pub config_valid-fits :
      config_valid F T c ≡ true → length (validation_set F T c) ≤ c.max_metric_calls
  unfolding config_valid
  config_valid-fits h = ground (arith, h)

  -- A run of a valid configuration that is not resumed ends, on any fuel above `MaxMetricCalls`, and
  -- whatever fails it has not made more metric calls than that.
  pub run-ends :
      (fuel : ℕ) (st : St F T)
      → config_valid F T c ≡ true
      → c.max_metric_calls < fuel
      → EndsBounded (run F T c E fuel st)
  unfolding run
  run-ends fuel st valid enough =
      go (initialize_state F T c E st)
        (initialize_state-Inv F T c E st (config_valid-fits valid)).ended
    where
      go :
          (r : Out T.Error (Unit {0}) × St F T)
          → Ended (Bounded F T c E) (λ _. Inv F T c 0) r
          → EndsBounded (elim r.0 [
            | err e ↦ some (err e, r.1)
            | ok _ ↦ elim (run_loop F T c E fuel r.1) [
              | none ↦ none
              | some (r2, st2) ↦ some (after_loop F T c E r2 st2)
            ]
          ])
      go (err e, st1) b = ((err e, st1), refl, b)
      go (ok u, st1) i =
          let (e, ended, j) = run_loop-ends F T c E fuel st1 0 i (omega (arith, enough)) in
          (after_loop F T c E e.0 e.1, ap finished ended, (after_loop-Inv 0 e j).bounded)
