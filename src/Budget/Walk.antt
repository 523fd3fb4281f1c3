-- ===== src/Budget/Walk.antt =====
-- The operations that walk from a frame out to the outermost run: the checks, the admission of a
-- model call, and the recording of usage. A clock gives what each run's `now` reads.
use gepago.Base.{ℕ, Option, none, some, List, [], ◌∷◌, ◌&&◌, if◌then◌else◌, put}
use gepago.Base.Int.{ℤ, pos, ◌+ℤ◌, ◌-ℤ◌, ltb_ℤ, leb_ℤ, eqb_ℤ}
use gepago.Usage.{Usage, add_usage, usage_tokens, no_usage}
use gepago.Budget.Limits.{BudgetFailure, duration_exceeded, model_calls_exceeded}
use gepago.Budget.Store.{
  ReturnedCall, FrameRef, Frame, Spending, Store, is_run, set_budget, set_cell, spent, enforce,
  Outcome, check_tokens, check_step_tokens,
}

abbrev pub Clock : Type 0
Clock = ℕ → ℤ

abbrev pub Check : Type 0
Check = Store → FrameRef → Outcome

-- `if err := …; err != nil { return err }` before what follows.
infixl 5 ◌and_then◌
abbrev pub ◌and_then◌ : Outcome → (Store → Outcome) → Outcome
(none, s) and_then k = k s
(some e, s) and_then k = (some e, s)

-- A walk over the frames that returns the first error.
unfoldable pub walk : Check → Frame → Store → Outcome
walk check [] s = (none, s)
walk check (f ∷ fs) s = check s f and_then walk check fs

-- The failure of a run's `MaxDuration` when the clock reads `now`.
unfoldable pub over_duration : Spending → ℤ → Option BudgetFailure
over_duration b now =
    let limit = b.limits.max_duration in
    if ltb_ℤ (pos 0) limit && leb_ℤ limit (now -ℤ b.start)
    then some (duration_exceeded limit)
    else none

-- One frame of `checkLocked`.
unfoldable pub check_frame : Clock → Check
unfolding over_duration enforce
check_frame now s f =
    let b = s.budgets f.budget in
    if is_run f
    then (b.err, s) and_then (λ t. enforce t f.budget (over_duration b (now f.budget)))
    else (b.step_errs f.step, s)

-- `checkLocked`, and `check`, which calls it under the lock.
unfoldable pub check : Clock → Frame → Store → Outcome
check now = walk (check_frame now)

-- One frame of the loop of `admitAttempt`.
unfoldable pub attempt_frame : Check
unfolding check_tokens check_step_tokens
attempt_frame s f =
    if is_run f then check_tokens s f.budget (spent s f) else check_step_tokens s f (spent s f)

-- The failure of a run's `MaxModelCalls` when one more call is asked for.
unfoldable pub over_calls : Spending → Option BudgetFailure
over_calls b =
    let limit = b.limits.max_model_calls in
    if ltb_ℤ (pos 0) limit && leb_ℤ limit b.calls
    then some (model_calls_exceeded limit (b.calls +ℤ pos 1))
    else none

-- The `MaxModelCalls` test of a run.
unfoldable pub check_calls : Store → ℕ → Outcome
unfolding over_calls enforce
check_calls s i = enforce s i (over_calls (s.budgets i))

-- Both tests of a run in `refusalLocked`.
unfoldable pub refusal_run : Check
unfolding check_tokens check_calls
refusal_run s f = check_tokens s f.budget (spent s f) and_then λ t. check_calls t f.budget

-- One frame of the loop of `refusalLocked`.
unfoldable pub refusal_frame : Check
unfolding refusal_run check_step_tokens
refusal_frame s f = if is_run f then refusal_run s f else check_step_tokens s f (spent s f)

-- `refusalLocked`
unfoldable pub refusal : Clock → Frame → Store → Outcome
refusal now fs s = check now fs s and_then walk refusal_frame fs

-- `admitAttempt`
unfoldable pub admit_attempt : Clock → Frame → Store → Outcome
admit_attempt now fs s = check now fs s and_then walk attempt_frame fs

-- The last loop of `admit`.
unfoldable pub reserve_frame : Store → FrameRef → Store
reserve_frame s f =
    let b = s.budgets f.budget in
    if is_run f then set_budget s f.budget (record b { calls = b.calls +ℤ pos 1 }) else s

unfoldable pub reserve : Frame → Store → Store
reserve [] s = s
reserve (f ∷ fs) s = reserve fs (reserve_frame s f)

-- `admit`: `none` admits the call and counts it in every run around the frame.
unfoldable pub admit : Clock → Frame → Store → Outcome
admit now fs s = refusal now fs s and_then λ t. (none, reserve fs t)

-- The first returned call with this many tokens, taken out, and its pending part.
unfoldable pub settle : ℤ → List ReturnedCall → ℤ × List ReturnedCall
settle tokens [] = (pos 0, [])
settle tokens (c ∷ cs) =
    let rest = settle tokens cs in
    if eqb_ℤ c.call_tokens tokens then (c.call_pending, cs) else (rest.0, c ∷ rest.1)

-- The counts of one frame of the loop of `add`.
unfoldable pub count_run : ℤ → ℤ → Store → FrameRef → Store
count_run tokens settled s f =
    let b = s.budgets f.budget in
    set_budget s f.budget (record b { pending = b.pending -ℤ settled; tokens = b.tokens +ℤ tokens })

unfoldable pub count_step : ℤ → ℤ → Store → FrameRef → Store
count_step tokens settled s f =
    let b = s.budgets f.budget in
    set_budget s f.budget (record b {
      step_pending = put b.step_pending f.step (b.step_pending f.step -ℤ settled);
      step_tokens = put b.step_tokens f.step (b.step_tokens f.step +ℤ tokens);
    })

-- The loop's check of a frame, whose error the loop drops.
unfoldable pub add_run : ℤ → ℤ → Store → FrameRef → Store
add_run tokens settled s f =
    let t = count_run tokens settled s f in (check_tokens t f.budget (spent t f)).1

unfoldable pub add_step : ℤ → ℤ → Store → FrameRef → Store
add_step tokens settled s f =
    let t = count_step tokens settled s f in (check_step_tokens t f (spent t f)).1

unfoldable pub add_frame : Usage → ℤ → ℤ → Store → FrameRef → Store
add_frame usage tokens settled s f =
    let c = s.cells f.cell in
    let t = set_cell s f.cell (record c { usage = add_usage c.usage usage }) in
    if is_run f then add_run tokens settled t f else add_step tokens settled t f

unfoldable pub add_frames : Usage → ℤ → ℤ → Frame → Store → Store
add_frames usage tokens settled [] s = s
add_frames usage tokens settled (f ∷ fs) s =
    add_frames usage tokens settled fs (add_frame usage tokens settled s f)

-- `add`
unfoldable pub add : Usage → Frame → Store → Store
add usage [] s = s
add usage (f ∷ fs) s =
    let tokens = usage_tokens usage in
    let c = s.cells f.cell in
    let (settled, returned) = settle tokens c.returned in
    add_frames usage tokens settled (f ∷ fs) (set_cell s f.cell (record c { returned = returned }))

-- `addUnbudgeted`
unfoldable pub add_unbudgeted : Usage → Frame → Store → Store
add_unbudgeted usage [] s = s
add_unbudgeted usage (f ∷ fs) s =
    let c = s.cells f.cell in
    add_unbudgeted usage fs
      (set_cell s f.cell (record c { unbudgeted = add_usage c.unbudgeted usage }))

-- `total` and `unbudgetedTotal`
unfoldable pub total : Frame → Store → Usage
total [] s = no_usage
total (f ∷ fs) s = (s.cells f.cell).usage

unfoldable pub unbudgeted_total : Frame → Store → Usage
unbudgeted_total [] s = no_usage
unbudgeted_total (f ∷ fs) s = (s.cells f.cell).unbudgeted
