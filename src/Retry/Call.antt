-- ===== src/Retry/Call.antt =====
-- retry_lm.go: `retryCall`. The wrapped model, the context and the timer are parameters over a state of
-- the world; the budgets are those of pipeline_budget.go. The loop is on fuel, and `none` is a call
-- that has not ended.
use gepago.Base.{
  ℕ, zero, suc, Bool, true, false, Option, none, some, List, [], ◌∷◌, ◌++◌, ◌||◌, not, leb,
  if◌then◌else◌,
}
use gepago.Base.Int.{ℤ, pos, negsuc, leb_ℤ}
use gepago.Usage.{Usage, no_usage, add_usage}
use gepago.Budget.Limits.{BudgetFailure}
use gepago.Budget.Store.{Frame, Store}
use gepago.Budget.Walk.{Clock}
use gepago.Budget.Retry.{RetryCall, begin_retry, report, next, finish}
use gepago.Retry.Errors.{ErrorChain, is_transient}
use gepago.Retry.Backoff.{RetrySettings, Shares, JitterSource, backoff}

-- What a call returns with its usage, the state of everything outside the budgets, and the floats
-- of the random share of a wait.
pub record CallTypes : Type 1 where
  pub Result : Type 0
  pub World : Type 0
  pub shares : Shares

module _ (C : ErrorChain) (K : CallTypes) where
  -- The wrapped model's call, with the call that its context carries; `usageOf`, read and written; the
  -- context; the clock; `Jitter` and Go's random numbers; and the timer, which says whether the wait ended
  -- before the context.
  pub record CallEnv : Type 0 where
    pub call : Option RetryCall → Store → K.World → (K.Result × Option C.Error) × Store × K.World
    pub nothing : K.Result
    pub usage_of : K.Result → Usage
    pub set_usage : K.Result → Usage → K.Result
    pub context_error : K.World → Option C.Error
    pub clock : K.World → Clock
    pub jitter : JitterSource K.shares K.World
    pub timer : ℤ → K.World → Bool × K.World
    pub refused : BudgetFailure → C.Error

  -- One attempt: what the model returned.
  abbrev pub AttemptMade : Type 0
  AttemptMade = K.Result × Option C.Error

  -- How a call stands: its last result, the summed usage, the attempts that it has made, which the code
  -- does not keep, and the state.
  pub record RetryState : Type 0 where
    pub result : K.Result
    pub usage : Usage
    pub made : List AttemptMade
    pub store : Store
    pub world : K.World

  module _ (E : CallEnv) (m : RetrySettings) where
    -- `max(m.MaxAttempts, 1)`
    unfoldable pub attempts_of : ℤ → ℕ
    attempts_of (pos zero) = 1
    attempts_of (pos (suc n)) = suc n
    attempts_of (negsuc n) = 1

    -- `sleepContext`
    unfoldable pub sleep_context : ℤ → K.World → Bool × K.World
    sleep_context delay w = elim (E.context_error w) [
      | some e ↦ (false, w)
      | none ↦ if leb_ℤ delay (pos 0) then (true, w) else E.timer delay w
    ]

    -- An attempt: the result carries the usage of all that have been made.
    unfoldable pub make_attempt : Option RetryCall → RetryState → Option C.Error × RetryState
    make_attempt carried s =
        let ((r, e), store, w) = E.call carried s.store s.world in
        let usage = add_usage s.usage (E.usage_of r) in
        (
          e,
          record {
            result = E.set_usage r usage;
            usage = usage;
            made = s.made ++ (r, e) ∷ [];
            store = store;
            world = w;
          },
        )

    -- The attempt is the last one.
    unfoldable pub is_last : ℕ → Option C.Error → Bool
    is_last attempt none = true
    is_last attempt (some e) =
        leb (attempts_of m.max_attempts) attempt || not (is_transient C (some e))

    -- The reservation of the next attempt: an error ends the call, and `none` goes on.
    unfoldable pub reserve_next : RetryCall → RetryState → Option (Option C.Error) × RetryState
    reserve_next admission s =
        let (refusal, store) = next (E.clock s.world) admission s.store in
        (
          elim refusal [ none ↦ none | some b ↦ some (some (E.refused b)) ],
          record s { store = store },
        )

    -- The wait after a failed attempt, unless its context ends first.
    unfoldable pub wait_next : ℕ → RetryCall → RetryState → Option (Option C.Error) × RetryState
    unfolding sleep_context reserve_next
    wait_next attempt admission s =
        let (delay, w) = backoff K.shares K.World E.jitter m attempt s.world in
        let (slept, w') = sleep_context delay w in
        let t = record s { world = w' } in
        if slept then reserve_next admission t else (some (E.context_error w'), t)

    -- A refusal of the budget ends the call.
    abbrev pub unless_refused :
        Option BudgetFailure
        → RetryState
        → Option (Option C.Error) × RetryState
        → Option (Option C.Error) × RetryState
    unless_refused none s goes_on = goes_on
    unless_refused (some b) s goes_on = (some (some (E.refused b)), s)

    -- The report of the usage, then the wait, unless the budget refuses the next attempt.
    unfoldable pub prepare_next : ℕ → RetryCall → RetryState → Option (Option C.Error) × RetryState
    unfolding wait_next
    prepare_next attempt admission s =
        let (refusal, store) = report (E.clock s.world) admission s.usage s.store in
        let t = record s { store = store } in
        unless_refused refusal t (wait_next attempt admission t)

    -- The loop of `retryCall`, from this attempt.
    unfoldable pub retry_from :
        ℕ → ℕ → Option RetryCall → RetryCall → RetryState → Option (Option C.Error × RetryState)
    unfolding make_attempt is_last prepare_next
    retry_from zero attempt carried admission s = none
    retry_from (suc fuel) attempt carried admission s = elim (E.context_error s.world) [
      | some e ↦ some (some e, record s { result = E.set_usage s.result s.usage })
      | none ↦
          let (e, t) = make_attempt carried s in
          if is_last attempt e
          then some (e, t)
          else (let (ended, u) = prepare_next attempt admission t in
              elim ended [
                | some err ↦ some (err, u)
                | none ↦ retry_from fuel (suc attempt) carried admission u
              ])
    ]

    -- The state at the start of a call.
    abbrev pub begun : Store → K.World → RetryState
    begun store w = record {
      result = E.nothing;
      usage = no_usage;
      made = [];
      store = store;
      world = w;
    }

    -- `finish`, which is deferred.
    abbrev pub finished :
        RetryCall → Option (Option C.Error × RetryState) → Option (Option C.Error × RetryState)
    finished admission none = none
    finished admission (some (e, s)) =
        some (e, record s { store = finish admission s.usage s.store })

    -- `retryCall` of a wrapped model, in a context with this frame and this retried call around it.
    unfoldable pub retry_call :
        ℕ → Frame → Option RetryCall → Store → K.World → Option (Option C.Error × RetryState)
    unfolding retry_from
    retry_call fuel frame around store w =
        let (carried, admission, store') = begin_retry frame around store in
        finished admission (retry_from fuel 1 carried admission (begun store' w))
