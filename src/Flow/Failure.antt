-- ===== src/Flow/Failure.antt =====
-- pipeline_transition_run.go: the transitions of a step that failed, `failed`, `askRestore` and
-- `restore`. The loop of `failed` that evaluates the rules again is on fuel, and `unfinished` is a
-- loop that has not ended.
use gepago.Base.{
  ℕ, zero, suc, ◌+◌, Bool, true, false, Option, none, some, List, [], ◌∷◌, ◌&&◌, ◌||◌, not, ltb,
  ◌==◌, if◌then◌else◌,
}
use gepago.Base.Action.{ok, err, pure, fail, get, ◌>>=◌, ◌>>◌}
use gepago.Flow.Data.{
  FlowTypes, Values, FlowRule, Plan, FlowEnv, FlowRun, StepVisit, PendingRewind, Method,
}
use gepago.Flow.Values.{key_values}
use gepago.Flow.Hooks.{call_when, call_amend, call_hook, check_visits, exhausted}
use gepago.Flow.Rewind.{step_failure_of, taken, end_rewind, reject_rewind, go_to, follow}
use gepago.Flow.Visit.{step_types, ending_at}

module _ (T : FlowTypes) where
  -- Where a step is followed: the index of the next step.
  pub data Next : Type 0 where
    at : ℕ → Next
    unfinished : Next

module _ (T : FlowTypes) (p : Plan T) (E : FlowEnv T) where
  -- The loop of `restore`: `from` is the step that the rewind ends at, `i` the one that failed.
  unfoldable pub follow_restored : ℕ → ℕ → Values T → T.Error → List (FlowRule T) → Method T ℕ
  follow_restored i from reads e [] = do f ← get; follow T p E from none f.values none
  follow_restored i from reads e (r ∷ rs) =
      let rest = follow_restored i from reads e rs in
      if r.rewind then rest else (do
        f ← get
        matched ← call_when T p E r (key_values T f.values (step_types T p E from)) none
        elim matched [
          | err we ↦ fail (step_failure_of T p E i reads (E.both_errors e we))
          | ok match ↦ if match then follow T p E from (some r) f.values none else rest
        ])

  -- `restore`, of the rewind that is pending, after a step failed with this error.
  unfoldable pub restore : ℕ → StepVisit T → T.Error → PendingRewind T → Method T ℕ
  restore i visit e r = do
    reads ← reject_rewind T p E i visit (some e) r
    follow_restored i r.rule.from reads e (p.success r.rule.from)

  -- `askRestore`, after a step failed with this error: the next step, where it restores.
  unfoldable pub ask_restore : ℕ → StepVisit T → T.Error → Values T → Method T (Option ℕ)
  ask_restore i visit e reads = do
    f ← get
    elim f.rewind [
      | none ↦ pure none
      | some r ↦ elim r.rule.restore [
        | none ↦ pure none
        | some hook ↦ do
          answer ← call_hook T p E r.rule "RestoreOnError" (hook (p.node i).name e)
          elim answer [
            | err he ↦ fail (step_failure_of T p E i reads (E.both_errors e he))
            | ok answered ↦
                if answered then (do next ← restore i visit e r; pure (some next)) else pure none
          ]
      ]
    ]

  -- A rule that matches is taken on a failure: the end of the body of the loop of `failed`.
  unfoldable pub take_failure : ℕ → FlowRule T → Values T → Option (Values T) → T.Error → Method T ℕ
  take_failure i r reads amended e = do
    f ← get
    elim (ending_at T p E i f) [ none ↦ pure tt | some _ ↦ end_rewind T p E true ]
    taken T p E r
    go_to T p E i r reads amended (some e)

  -- What the loop of `failed` keeps between two rules: whether `RestoreOnError` is still to be asked.
  module _ (i : ℕ) (visit : StepVisit T) (own : T.Error) (reads : Values T) where
    abbrev ask_if : Bool → Method T (Option ℕ)
    ask_if b = if b then ask_restore i visit own reads else pure none

    -- A rule that matches, once `RestoreOnError` has been asked where it is to be.
    unfoldable pub take_match :
        FlowRule T → T.Error → (T.Error → Method T (Next T)) → Method T (Next T)
    take_match r e again =
        if r.rewind
        then (do
          f ← get
          elim (check_visits T p E f r) [
            | some ve ↦ again (E.both_errors e ve)
            | none ↦ do
              amended ← call_amend T p E r visit.view (p.node i).reads
              elim amended [
                | err ae ↦ fail (step_failure_of T p E i reads (E.both_errors e ae))
                | ok a ↦ take_failure i r reads a e >>= λ n. pure (at n)
              ]
          ])
        else (take_failure i r reads none e >>= λ n. pure (at n))

    -- The rule at position `k`, once `RestoreOnError` has been asked where it is to be asked before it.
    unfoldable pub consider :
        Bool
        → ℕ
        → Bool
        → T.Error
        → FlowRule T
        → (Bool → T.Error → Method T (Next T))
        → (Bool → Method T (Next T))
        → Method T (Next T)
    consider restorable k used e r again rest = do
      f ← get
      if used && r.rewind && exhausted T p E f r then rest restorable else do
        matched ← call_when T p E r (key_values T visit.view (p.node i).reads) (some e)
        elim matched [
          | err we ↦ fail (step_failure_of T p E i reads (E.both_errors e we))
          | ok match ↦
              if match
              then (let before : Bool = elim (p.fallback i) [ none ↦ false | some b ↦ ltb k b ] in
                  let ask = restorable && before && not r.fallback in
                  do
                    next ← ask_if ask
                    elim next [
                      | some n ↦ pure (at n)
                      | none ↦ take_match r e (again (restorable && not ask))
                    ])
              else rest restorable
        ]

    -- The loop over the rules on failure, from position `k`.
    unfoldable pub scan :
        Bool
        → ℕ
        → Bool
        → T.Error
        → (Bool → T.Error → Method T (Next T))
        → List (FlowRule T)
        → Method T (Next T)
    scan restorable k used e again [] = do
      next ← ask_if restorable
      elim next [ some n ↦ pure (at n) | none ↦ fail (step_failure_of T p E i reads e) ]
    scan restorable k used e again (r ∷ rs) =
        let after : Bool = elim (p.fallback i) [ none ↦ true | some b ↦ ltb b k ] in
        let ask = restorable && after in
        let rest : Bool → Method T (Next T) = λ left. scan left (k + 1) used e again rs in
        do
          next ← ask_if ask
          elim next [
            | some n ↦ pure (at n)
            | none ↦ consider (restorable && not ask) k used e r again rest
          ]

    -- `evaluate`: the rules, evaluated again where a rewind has used its visits.
    unfoldable pub evaluate : ℕ → Bool → Bool → T.Error → Method T (Next T)
    evaluate zero restorable used e = pure unfinished
    evaluate (suc fuel) restorable used e =
        scan restorable 0 used e (λ left e'. evaluate fuel left true e') (p.failure i)

  -- The part of `failed` before its loop: the values of the step's reads, and whether
  -- `RestoreOnError` may be asked.
  unfoldable pub reject_failed : ℕ → StepVisit T → Method T (Values T × Bool)
  reject_failed i visit = do
    f ← get
    elim f.rewind [
      | none ↦ pure (visit.view, false)
      | some r ↦
          if r.rule.from == i && (visit.rejected || visit.accept_failed)
          then (do reads ← reject_rewind T p E i visit none r; pure (reads, false))
          else pure (
            visit.view,
            (elim r.rule.restore [ none ↦ false | some _ ↦ true ]) && not visit.accepted,
          )
    ]

  -- What the rules on failure see of a visit: a view that is the map of the state's values holds what a
  -- rejection has restored in it, and a copy what it held.
  abbrev pub seen_after : StepVisit T → FlowRun T → StepVisit T
  seen_after visit f = record visit { view = if visit.shares_state then f.values else visit.view }

  -- `failed`, of a visit that failed with this error.
  unfoldable pub failed : ℕ → StepVisit T → T.Error → Method T (Next T)
  failed i visit e = do
    (reads, restorable) ← reject_failed i visit
    f ← get
    if E.context_ended f.world
        then fail (step_failure_of T p E i reads e)
        else evaluate i (seen_after visit f) e reads 2 restorable visit.maxed e
