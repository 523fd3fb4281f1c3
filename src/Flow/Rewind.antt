-- ===== src/Flow/Rewind.antt =====
-- pipeline_transition_run.go: the start and the end of a rewind, commits, and the transition that a
-- step follows.
use gepago.Base.{
  ℕ, ◌+◌, Bool, true, false, Option, none, some, [], ◌∷◌, ◌++◌, ◌&&◌, ◌||◌, if◌then◌else◌,
}
use gepago.Base.Action.{pure, fail, get, modify, ◌>>=◌, ◌>>◌}
use gepago.Transition.Defs.{step, end_target, fail_target}
use gepago.Flow.Data.{
  FlowTypes, Values, FlowRule, Plan, FlowEnv, FlowRun, StepError, StepVisit, PendingRewind,
  FlowEvent, transition_taken, rewind_rejected, Method,
}
use gepago.Flow.Values.{key_values, overlay, restore_values, restore_defaulted, snapshot_keys}
use gepago.Flow.Hooks.{outside, landing}

module _ (T : FlowTypes) (p : Plan T) (E : FlowEnv T) where
  -- The `StepError` of `failStep`.
  abbrev pub step_failure_of : ℕ → Values T → T.Error → StepError T
  step_failure_of i reads e = record {
    step = (p.node i).name;
    reads = key_values T reads (p.node i).reads;
    err = e;
  }

  abbrev pub report : FlowEvent T → Method T (Unit {0})
  report event = modify (λ f. record f { events = f.events ++ event ∷ [] })

  -- `taken`
  unfoldable pub taken : FlowRule T → Method T (Unit {0})
  taken r = report (transition_taken (p.node r.from).name r.to r.index r.rewind)

  -- The end of the rewind in `endRewind`.
  unfoldable pub end_pending : Bool → PendingRewind T → Method T (Unit {0})
  end_pending keep r = do
    modify (λ f. record f { rewind = none })
    outside T (λ w. (tt, E.end_journal keep w))
    if keep then outside T (λ w. (tt, E.commit_staged r.stage w)) else pure tt

  -- `endRewind`
  unfoldable pub end_rewind : Bool → Method T (Unit {0})
  end_rewind keep = do f ← get; elim f.rewind [ none ↦ pure tt | some r ↦ end_pending keep r ]

  -- The values that `startRewind` resets, and the rewind that it leaves pending.
  unfoldable pub begin_rewind : FlowRule T → Option (Values T) → FlowRun T → FlowRun T
  begin_rewind r amended f = record f {
    values = restore_values T f.values (f.before (landing T p E r)) r.keys;
    defaulted = restore_defaulted T f.defaulted (f.before (landing T p E r)) r.keys;
    rewind = some (record {
      rule = r;
      prev = snapshot_keys T f r.keys;
      amended = amended;
      stage = E.no_staged;
    });
  }

  -- `startRewind`
  unfoldable pub start_rewind : FlowRule T → Option (Values T) → Method T (Unit {0})
  start_rewind r amended = do
    outside T (λ w. (tt, E.start_journal (E.offer amended w)))
    modify (begin_rewind r amended)

  -- The values that a rejection restores.
  unfoldable pub restore_state : PendingRewind T → FlowRun T → FlowRun T
  restore_state r f = record f {
    values = restore_values T f.values r.prev r.rule.keys;
    defaulted = restore_defaulted T f.defaulted r.prev r.rule.keys;
  }

  -- `rejectRewind`, of the rewind that is pending: the values of the step's reads.
  unfoldable pub reject_rewind :
      ℕ → StepVisit T → Option T.Error → PendingRewind T → Method T (Values T)
  reject_rewind i visit restored r = do
    modify (restore_state r)
    end_rewind false
    if visit.rejected || (elim restored [ none ↦ false | some _ ↦ true ])
        then report (rewind_rejected (p.node i).name r.rule.index restored)
        else pure tt
    pure (key_values T visit.view (p.node i).reads)

  -- The writes of `commit`.
  unfoldable pub commit_values : StepVisit T → FlowRun T → FlowRun T
  commit_values visit f = record f {
    values = overlay T f.values visit.committed;
    defaulted = λ k. f.defaulted k && (elim (visit.committed k) [ none ↦ true | some _ ↦ false ]);
  }

  -- What `commit` does with what the visit staged.
  unfoldable pub stage_visit : StepVisit T → Method T (Unit {0})
  stage_visit visit = do
    f ← get
    elim f.rewind [
      | none ↦ outside T (λ w. (tt, E.commit_staged visit.staged w))
      | some r ↦
          modify (λ g. record g {
            rewind = some (record r { stage = E.stage_add r.stage visit.staged });
          })
    ]

  -- `commit`
  unfoldable pub commit : StepVisit T → Method T (Unit {0})
  commit visit = modify (commit_values visit) >> stage_visit visit

  -- The switch at the end of `follow` and of `failed`.
  unfoldable pub go_to : ℕ → FlowRule T → Values T → Option (Values T) → Option T.Error → Method T ℕ
  go_to i r reads amended cause = elim r.to [
    | fail_target ↦ fail (step_failure_of i reads (E.fail_error r.index cause))
    | end_target ↦ pure p.steps
    | step t ↦ if r.rewind then (start_rewind r amended >> pure t) else pure t
  ]

  -- `follow`
  unfoldable pub follow : ℕ → Option (FlowRule T) → Values T → Option (Values T) → Method T ℕ
  follow i none reads amended = pure (i + 1)
  follow i (some r) reads amended = taken r >> go_to i r reads amended none
