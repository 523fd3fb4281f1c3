-- ===== src/Flow/Hooks.antt =====
-- pipeline_transition_run.go: the calls of a rule's functions, `callWhen`, `callAccept` and
-- `callAmend` with `callHook`, and the visits that a rewind may still take.
use gepago.Base.{
  ℕ, ◌+◌, String, Bool, true, Option, none, some, List, [], ◌∷◌, leb, put, if◌then◌else◌,
}
use gepago.Base.Action.{Out, ok, err, pure, ◌>>=◌}
use gepago.Transition.Defs.{Target, step, end_target, fail_target}
use gepago.Flow.Data.{FlowTypes, Keys, Values, Hook, FlowRule, Plan, FlowEnv, FlowRun, Method}
use gepago.Flow.Values.{no_values, key_values}

abbrev pub lands : Target → ℕ
lands (step t) = t
lands end_target = 0
lands fail_target = 0

module _ (T : FlowTypes) where
  -- What is outside the run changes, and the rest stays.
  unfoldable pub outside : {A : Type 0} → (T.World → A × T.World) → Method T A
  outside g f = let (a, w) = g f.world in (ok a, record f { world = w })

  module _ (p : Plan T) (E : FlowEnv T) where
    -- `callHook`: the error of a function names the rule and the function.
    unfoldable pub call_hook :
        {A : Type 0} → FlowRule T → String → Hook T A → Method T (Out T.Error A)
    unfolding outside
    call_hook r name hook = outside (λ w.
        let (o, w') = hook w in
        (elim o [ ok a ↦ ok a | err e ↦ err (E.hook_error r.index name e) ], w'))

    -- `callWhen`
    unfoldable pub call_when : FlowRule T → Values T → Option T.Error → Method T (Out T.Error Bool)
    unfolding call_hook
    call_when r view e = elim r.when [
      | none ↦ pure (ok true)
      | some when ↦ call_hook r "When" (when view e)
    ]

    -- `callAccept`
    unfoldable pub call_accept : FlowRule T → Values T → Values T → Method T (Out T.Error Bool)
    unfolding call_hook key_values
    call_accept r prev next = elim r.accept [
      | none ↦ pure (ok true)
      | some accept ↦
          call_hook r "Accept" (accept (key_values T prev r.keys) (key_values T next r.keys))
    ]

    -- The index that a rewind lands on.
    abbrev pub landing : FlowRule T → ℕ
    landing r = lands r.to

    -- What `Amend` set, or the error for a key that is not amendable.
    unfoldable pub amend_values :
        FlowRule T → List (String × T.Value) → Values T → Out T.Error (Values T)
    amend_values r [] amended = ok amended
    amend_values r ((k, v) ∷ writes) amended =
        if p.amendable (landing r) k
        then amend_values r writes (put amended k (some v))
        else err (E.not_amendable r.index k)

    unfoldable pub amended_by :
        FlowRule T → Out T.Error (List (String × T.Value)) → Out T.Error (Option (Values T))
    unfolding amend_values
    amended_by r (err e) = err e
    amended_by r (ok writes) = elim (amend_values r writes (no_values T)) [
      | err e ↦ err e
      | ok amended ↦ ok (some amended)
    ]

    -- `callAmend`
    unfoldable pub call_amend :
        FlowRule T → Values T → Keys → Method T (Out T.Error (Option (Values T)))
    unfolding call_hook amended_by key_values
    call_amend r values types = elim r.amend [
      | none ↦ pure (ok none)
      | some amend ↦ do
        set ← call_hook r "Amend" (amend (key_values T values types))
        pure (amended_by r set)
    ]

    -- `exhausted`
    unfoldable pub exhausted : FlowRun T → FlowRule T → Bool
    exhausted f r = leb (p.max_visits (landing r)) (f.visits (landing r))

    -- `checkVisits`
    unfoldable pub check_visits : FlowRun T → FlowRule T → Option T.Error
    unfolding exhausted
    check_visits f r =
        let t = landing r in
        if exhausted f r
        then some (E.max_visits_error r.index t (f.visits t + 1) (p.max_visits t))
        else none
