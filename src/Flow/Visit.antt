-- ===== src/Flow/Visit.antt =====
-- pipeline_transition_run.go: one visit of a step, `visit` and `decide`.
use gepago.Base.{
  ℕ, ◌+◌, Bool, true, false, Option, none, some, List, [], ◌∷◌, ◌&&◌, ◌||◌, ◌==◌, update,
  if◌then◌else◌,
}
use gepago.Base.Action.{Out, ok, err, pure, get, modify, ◌>>=◌, ◌>>◌}
use gepago.Flow.Data.{
  FlowTypes, Keys, Values, FlowRule, Plan, FlowEnv, FlowRun, StepResult, StepVisit, PendingRewind,
  Method,
}
use gepago.Flow.Values.{no_values, overlay, key_values, restore_values, snapshot_all, merge_writes}
use gepago.Flow.Hooks.{outside, call_when, call_accept, call_amend, check_visits, landing}

module _ (T : FlowTypes) (p : Plan T) (E : FlowEnv T) where
  -- `stepVisit{view: view}`, of a view that is the map of the state's values or a copy of it.
  abbrev pub new_visit : Values T → Bool → StepVisit T
  new_visit view shares_state = record {
    view = view;
    shares_state = shares_state;
    committed = no_values T;
    staged = E.no_staged;
    err = none;
    rule = none;
    accepted = false;
    rejected = false;
    accept_failed = false;
    maxed = false;
    amended = none;
  }

  -- The rewind that ends at this step.
  abbrev pub ending_at : ℕ → FlowRun T → Option (PendingRewind T)
  ending_at i f = elim f.rewind [ none ↦ none | some r ↦ if r.rule.from == i then some r else none ]

  -- What `decide` records of the answer of `Accept`, with the values that the rules see.
  unfoldable pub accept_visit :
      StepVisit T
      → Values T
      → FlowRun T
      → PendingRewind T
      → Out T.Error Bool
      → StepVisit T × Values T
  accept_visit visit pending f r (err e) =
      (record visit { accept_failed = true; err = some e }, visit.view)
  accept_visit visit pending f r (ok true) =
      (record visit { accepted = true }, overlay T visit.view pending)
  accept_visit visit pending f r (ok false) =
      (record visit { rejected = true }, restore_values T f.values r.prev r.rule.keys)

  -- The part of `decide` that runs `Accept`: the visit, and the values that the rules see.
  unfoldable pub judge : ℕ → StepVisit T → Values T → Method T (StepVisit T × Values T)
  judge i visit pending = do
    f ← get
    elim (ending_at i f) [
      | none ↦ pure (visit, overlay T visit.view pending)
      | some r ↦ do
        accepted ←
            call_accept T p E r.rule r.prev.values
              (key_values T (overlay T f.values visit.committed) r.rule.keys)
        pure (accept_visit visit pending f r accepted)
    ]

  -- What `decide` records of a rewind that matches, after `Amend`.
  unfoldable pub amend_visit :
      StepVisit T → FlowRule T → Out T.Error (Option (Values T)) → StepVisit T
  amend_visit visit r (err e) = record visit { err = some e }
  amend_visit visit r (ok amended) = record visit { rule = some r; amended = amended }

  -- What `decide` records of a rule that matches.
  unfoldable pub choose_rule : StepVisit T → Values T → Keys → FlowRule T → Method T (StepVisit T)
  choose_rule visit values types r =
      if r.rewind
      then (do
        f ← get
        elim (check_visits T p E f r) [
          | some e ↦ pure (record visit { maxed = true; err = some e })
          | none ↦ do amended ← call_amend T p E r values types; pure (amend_visit visit r amended)
        ])
      else pure (record visit { rule = some r })

  -- The loop of `decide` over the rules on success.
  unfoldable pub choose : StepVisit T → Values T → Keys → List (FlowRule T) → Method T (StepVisit T)
  unfolding choose_rule
  choose visit values types [] = pure visit
  choose visit values types (r ∷ rs) =
      let rest = choose visit values types rs in
      if visit.rejected && r.rewind then rest else (do
        matched ← call_when T p E r (key_values T values types) none
        elim matched [
          | err e ↦ pure (record visit { err = some e })
          | ok match ↦ if match then choose_rule visit values types r else rest
        ])

  -- The keys that a step reads or writes.
  abbrev pub step_types : ℕ → Keys
  step_types i k = (p.node i).reads k || (p.node i).writes k

  -- `decide`
  unfoldable pub decide : ℕ → StepVisit T → Values T → Method T (StepVisit T)
  decide i visit pending = do
    (judged, values) ← judge i visit pending
    if judged.accept_failed then pure judged else choose judged values (step_types i) (p.success i)

  -- What `visit` keeps of a visit that failed.
  abbrev pub failed_visit : StepVisit T → T.Error → StepVisit T
  failed_visit visit e = record visit {
    committed = no_values T;
    staged = E.no_staged;
    err = some e;
    rule = none;
    amended = none;
  }

  -- The visit after its result has been checked: what it staged, or its error.
  unfoldable pub end_visit : StepVisit T → T.Staged → Option T.Error → StepVisit T
  end_visit visit staged none = record visit { staged = staged }
  end_visit visit staged (some e) = failed_visit visit e

  -- The check of a result that `visit` hands to `runNode`.
  unfoldable pub check_result : ℕ → StepVisit T → StepResult T → Method T (StepVisit T)
  check_result i visit result = do
    f ← get
    elim (merge_writes T p E (p.node i).write_names result.writes f.values f.defaulted
        (no_values T)) [
          | err e ↦ pure (record visit { err = some e })
          | ok committed ↦ decide i (record visit { committed = committed }) result.writes
        ]

  -- The count of a visit, and the state before it where a rewind may land on the step.
  unfoldable pub begin_visit : ℕ → FlowRun T → FlowRun T
  begin_visit i f = record f {
    visits = update f.visits i (f.visits i + 1);
    before = if p.target i then update f.before i (snapshot_all T f) else f.before;
  }

  -- What `Amend` set for this visit, which it takes from the rewind that is pending.
  abbrev pub amended_at : ℕ → FlowRun T → Option (Values T)
  amended_at i f = elim f.rewind [
    | none ↦ none
    | some r ↦ if landing T p E r.rule == i then r.amended else none
  ]

  unfoldable pub take_amended : ℕ → FlowRun T → FlowRun T
  take_amended i f = elim f.rewind [
    | none ↦ f
    | some r ↦
        if landing T p E r.rule == i
        then record f { rewind = some (record r { amended = none }) }
        else f
  ]

  abbrev pub is_pending : FlowRun T → Bool
  is_pending f = elim f.rewind [ none ↦ false | some _ ↦ true ]

  -- The view of a visit.
  abbrev pub visit_view : ℕ → FlowRun T → Values T
  visit_view i f = elim (amended_at i f) [ none ↦ f.values | some a ↦ overlay T f.values a ]

  -- Without amended values, the view is the map of the state's values itself.
  abbrev pub view_shared : ℕ → FlowRun T → Bool
  view_shared i f = elim (amended_at i f) [ none ↦ true | some _ ↦ false ]

  -- The visit after `runNode` has run the step: the check of its result, and its end.
  unfoldable pub finish_visit :
      ℕ → StepVisit T → Out T.Error (StepResult T) → Method T (StepVisit T)
  finish_visit i visit (err e) = do
    outside T (λ w. (tt, E.end_node i (some e) w))
    pure (failed_visit visit e)
  finish_visit i visit (ok result) = do
    checked ← check_result i visit result
    outside T (λ w. (tt, E.end_node i checked.err w))
    pure (end_visit checked result.staged checked.err)

  -- `visit`
  unfoldable pub visit : ℕ → Method T (StepVisit T)
  visit i = do
    modify (begin_visit i)
    f ← get
    modify (take_amended i)
    result ← outside T (E.run_node (f.visits i) i (is_pending f) (visit_view i f))
    finish_visit i (new_visit (visit_view i f) (view_shared i f)) result
