-- ===== src/Flow/Stays.antt =====
-- pipeline_transition_run.go: the operations of a run that visit no step.
use gepago.Base.{ℕ, ◌≤◌, ◌≡◌, sym, subst, String, Bool, true, false, Option, none, some, ◌||◌}
use gepago.Base.Action.{
  Ends, Keeps, bind-Ends, then-Ends, get-Ends, modify-Ends, assign-Ends, pure-Ends, if-Ends,
  option-Ends,
}
use gepago.Flow.Data.{
  FlowTypes, Keys, Values, Hook, FlowRule, Plan, FlowEnv, FlowRun, FlowEvent, PendingRewind,
  StepVisit,
}
use gepago.Flow.Hooks.{outside, call_hook, call_when, call_accept, call_amend}
use gepago.Flow.Rewind.{
  report, taken, end_pending, end_rewind, restore_state, reject_rewind, commit_values, stage_visit,
  commit, start_rewind, begin_rewind,
}
use gepago.Flow.Compiled.{EndsFrom, AtVisit}

module _ (T : FlowTypes) (p : Plan T) (E : FlowEnv T) (vs : ℕ → ℕ) (i : ℕ) where
  abbrev J : FlowRun T → Type 0
  J = AtVisit T vs i

  pub outside-Keeps : {A : Type 0} (g : T.World → A × T.World) → Keeps J (outside T g)
  unfolding outside
  outside-Keeps g f j = record { ended = j }

  pub call_hook-Keeps :
      {A : Type 0} (r : FlowRule T) (name : String) (hook : Hook T A)
      → Keeps J (call_hook T p E r name hook)
  unfolding call_hook
  call_hook-Keeps r name hook = outside-Keeps _

  pub call_when-Keeps :
      (r : FlowRule T) (view : Values T) (e : Option T.Error) → Keeps J (call_when T p E r view e)
  unfolding call_when
  call_when-Keeps r view e f j =
      option-Ends r.when (λ _. pure-Ends _ j) (λ _ _. call_hook-Keeps r "When" _ f j)

  pub call_accept-Keeps :
      (r : FlowRule T) (prev next : Values T) → Keeps J (call_accept T p E r prev next)
  unfolding call_accept
  call_accept-Keeps r prev next f j =
      option-Ends r.accept (λ _. pure-Ends _ j) (λ _ _. call_hook-Keeps r "Accept" _ f j)

  pub call_amend-Keeps :
      (r : FlowRule T) (values : Values T) (types : Keys)
      → Keeps J (call_amend T p E r values types)
  unfolding call_amend
  call_amend-Keeps r values types f j =
      option-Ends r.amend (λ _. pure-Ends _ j)
        (λ _ _. bind-Ends (call_hook-Keeps r "Amend" _ f j) (λ set g k. pure-Ends _ k))

  pub report-Keeps : (event : FlowEvent T) → Keeps J (report T p E event)
  report-Keeps event f j = assign-Ends _ j

  pub taken-Keeps : (r : FlowRule T) → Keeps J (taken T p E r)
  unfolding taken
  taken-Keeps r = report-Keeps _

  -- However it was reached, the end of a rewind leaves none pending.
  end_pending-Ends :
      (keep : Bool) (r : PendingRewind T) (f : FlowRun T)
      → f.visits ≡ vs
      → Ends J (λ _. J) (end_pending T p E keep r) f
  unfolding end_pending
  end_pending-Ends keep r f same = modify-Ends _ _ (
      then-Ends (outside-Keeps _ _ (same, tt))
        (λ _ g j. if-Ends keep (λ _. outside-Keeps _ g j) (λ _. pure-Ends tt j)))

  pub end_rewind-Ends :
      (keep : Bool) (f : FlowRun T) → f.visits ≡ vs → Ends J (λ _. J) (end_rewind T p E keep) f
  unfolding end_rewind
  end_rewind-Ends keep f same = get-Ends _ (
      option-Ends f.rewind (λ e. pure-Ends tt (same, subst (EndsFrom T i) (sym e) tt))
        (λ r _. end_pending-Ends keep r f same))

  pub reject_rewind-Keeps :
      (k : ℕ) (visit : StepVisit T) (restored : Option T.Error) (r : PendingRewind T)
      → Keeps J (reject_rewind T p E k visit restored r)
  unfolding reject_rewind restore_state
  reject_rewind-Keeps k visit restored r f j = modify-Ends _ _ (
      then-Ends (end_rewind-Ends false _ j.0) (λ _ g h.
        then-Ends
          (if-Ends (visit.rejected || (elim restored [ none ↦ false | some _ ↦ true ]))
            (λ _. report-Keeps _ g h) (λ _. pure-Ends tt h))
          (λ _ g' h'. pure-Ends _ h')))

  stage_visit-Keeps : (visit : StepVisit T) → Keeps J (stage_visit T p E visit)
  unfolding stage_visit
  stage_visit-Keeps visit f j =
      get-Ends _
        (option-Ends f.rewind (λ _. outside-Keeps _ f j) (λ r e. assign-Ends _ (j.0, within r e)))
    where
      within : (r : PendingRewind T) → f.rewind ≡ some r → i ≤ r.rule.from
      within r e = subst (EndsFrom T i) e j.1

  pub commit-Keeps : (visit : StepVisit T) → Keeps J (commit T p E visit)
  unfolding commit commit_values
  commit-Keeps visit f j = modify-Ends _ _ (stage_visit-Keeps visit _ j)

  pub start_rewind-Keeps :
      (r : FlowRule T) (amended : Option (Values T))
      → i ≤ r.from
      → Keeps J (start_rewind T p E r amended)
  unfolding start_rewind begin_rewind
  start_rewind-Keeps r amended h f j =
      then-Ends (outside-Keeps _ f j) (λ _ g k. assign-Ends _ (k.0, h))
