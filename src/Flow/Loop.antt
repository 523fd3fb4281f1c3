-- ===== src/Flow/Loop.antt =====
-- pipeline_transition_run.go: `succeeded` and `run`. The loop over visits is on fuel, and `none` is a
-- run that has not ended.
use gepago.Base.{
  ℕ, zero, suc, ◌+◌, ◌-◌, Bool, true, false, Option, none, some, [], ltb, leb, update,
  if◌then◌else◌,
}
use gepago.Base.Action.{Out, ok, err, pure, fail, get, modify, attempt, ◌>>=◌, ◌>>◌}
use gepago.Transition.Defs.{step, end_target, fail_target}
use gepago.Flow.Data.{
  FlowTypes, Keys, Values, FlowRule, Plan, FlowEnv, FlowRun, StepError, StepVisit, Method,
}
use gepago.Flow.Values.{no_values, snapshot_all}
use gepago.Flow.Hooks.{outside}
use gepago.Flow.Rewind.{end_rewind, reject_rewind, commit, follow}
use gepago.Flow.Visit.{ending_at, visit}
use gepago.Flow.Failure.{Next, at, unfinished, failed}

module _ (T : FlowTypes) (p : Plan T) (E : FlowEnv T) where
  abbrev pub to_fail : Option (FlowRule T) → Bool
  to_fail none = false
  to_fail (some r) = elim r.to [ step t ↦ false | end_target ↦ false | fail_target ↦ true ]

  -- The commit of a visit, unless it goes to Fail.
  abbrev pub commit_unless_fail : StepVisit T → Method T (Unit {0})
  commit_unless_fail visit = if to_fail visit.rule then pure tt else commit T p E visit

  -- The part of `succeeded` before `follow`: the values of the step's reads.
  unfoldable pub settle : ℕ → StepVisit T → Method T (Values T)
  settle i visit = do
    f ← get
    elim (ending_at T p E i f) [
      | none ↦ do commit_unless_fail visit; pure visit.view
      | some r ↦
          if visit.rejected
          then reject_rewind T p E i visit none r
          else (do commit_unless_fail visit; end_rewind T p E true; pure visit.view)
    ]

  -- `succeeded`
  unfoldable pub succeeded : ℕ → StepVisit T → Method T ℕ
  succeeded i visit = do reads ← settle i visit; follow T p E i visit.rule reads visit.amended

  -- The rewind whose range the run has left.
  unfoldable pub leave_range : ℕ → Method T (Unit {0})
  leave_range i = do
    f ← get
    elim f.rewind [
      | none ↦ pure tt
      | some r ↦ if ltb r.rule.from i then end_rewind T p E true else pure tt
    ]

  -- The rewind targets among these steps, from `k` on, that a skip passes over.
  unfoldable pub pass_over : ℕ → ℕ → FlowRun T → FlowRun T
  pass_over k zero f = f
  pass_over k (suc n) f =
      pass_over (k + 1) n
        (if p.target k then record f { before = update f.before k (snapshot_all T f) } else f)

  -- How many steps the run passes over from `i` to `next`.
  abbrev pub passed : ℕ → ℕ → ℕ
  passed i next = (if leb next p.steps then next else p.steps) - (i + 1)

  -- Where the visit of a step leads.
  unfoldable pub go_on : ℕ → StepVisit T → Method T (Next T)
  go_on i v = elim v.err [ some e ↦ failed T p E i v e | none ↦ succeeded i v >>= λ n. pure (at n) ]

  -- The end of a round, by how `failed` or `succeeded` ended.
  unfoldable pub end_round : ℕ → Out (StepError T) (Next T) → Method T (Next T)
  end_round i (err e) = end_rewind T p E true >> fail e
  end_round i (ok unfinished) = pure unfinished
  end_round i (ok (at next)) = modify (pass_over (i + 1) (passed i next)) >> pure (at next)

  -- One round of the loop of `run`, at a step.
  unfoldable pub round : ℕ → Method T (Next T)
  round i = do
    leave_range i
    v ← visit T p E i
    out ← attempt (go_on i v)
    outside T (λ w. (tt, E.resolve_step w))
    end_round i out

  -- The loop of `run`, from a step.
  unfoldable pub run_from : ℕ → ℕ → FlowRun T → Option (Out (StepError T) (Unit {0}) × FlowRun T)
  run_from zero i f = none
  run_from (suc fuel) i f =
      if leb p.steps i
      then some (end_rewind T p E true f)
      else (let (out, g) = round i f in
          elim out [
            | err e ↦ some (err e, g)
            | ok unfinished ↦ none
            | ok (at next) ↦ run_from fuel next g
          ])

  -- `newFlowRun`
  unfoldable pub new_flow_run : Values T → Keys → T.World → FlowRun T
  new_flow_run values defaulted w = record {
    values = values;
    defaulted = defaulted;
    visits = λ i. 0;
    before = λ i. record { values = no_values T; defaulted = λ k. false };
    rewind = none;
    events = [];
    world = w;
  }

  -- `run`
  unfoldable pub run_flow :
      ℕ → Values T → Keys → T.World → Option (Out (StepError T) (Unit {0}) × FlowRun T)
  run_flow fuel values defaulted w = run_from fuel 0 (new_flow_run values defaulted w)
