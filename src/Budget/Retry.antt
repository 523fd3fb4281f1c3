-- ===== src/Budget/Retry.antt =====
-- `retryAdmission`: the admission of the attempts of a retried call, whose failed attempts count as
-- spent, as pending tokens, until the caller records the usage that the call returns.
use gepago.Base.{
  ℕ, ◌+◌, Bool, true, false, Option, none, some, List, [], ◌∷◌, ◌++◌, ◌==◌, if◌then◌else◌, update,
  put,
}
use gepago.Base.Int.{ℤ, pos, ◌+ℤ◌, ◌-ℤ◌, ltb_ℤ, max_ℤ}
use gepago.Usage.{Usage, usage_tokens}
use gepago.Budget.Store.{FrameRef, Frame, Store, Outcome, is_run, set_budget, set_cell}
use gepago.Budget.Walk.{Clock, refusal, admit}

-- `retryAdmission`: its frame, and its own address before those of the calls it is nested in.
pub record RetryCall : Type 0 where
  pub frame : Frame
  pub chain : List ℕ

-- The frames are one object: both nil, or at one address.
unfoldable pub same_frame : Frame → Frame → Bool
same_frame [] [] = true
same_frame [] (g ∷ gs) = false
same_frame (f ∷ fs) [] = false
same_frame (f ∷ fs) (g ∷ gs) = f.cell == g.cell

-- The calls that a call with this frame is nested in, from the call that the context carries.
unfoldable pub nested_in : Frame → Option RetryCall → List ℕ
unfolding same_frame
nested_in f none = []
nested_in f (some parent) = if same_frame parent.frame f then parent.chain else []

-- `beginRetryAdmission`: the call that the attempts' context carries, and the call.
unfoldable pub begin_retry : Frame → Option RetryCall → Store → Option RetryCall × RetryCall × Store
unfolding nested_in
begin_retry [] carried s = (carried, record { frame = []; chain = [] }, s)
begin_retry (f ∷ fs) carried s =
    let call : RetryCall = record {
      frame = f ∷ fs;
      chain = s.next_call ∷ nested_in (f ∷ fs) carried;
    } in
    (
      some call,
      call,
      record s { reported = update s.reported s.next_call (pos 0); next_call = s.next_call + 1 },
    )

-- What the call has reported; zero outside a run.
unfoldable pub reported_by : Store → List ℕ → ℤ
reported_by s [] = pos 0
reported_by s (c ∷ cs) = s.reported c

-- The first loop of `report`.
unfoldable pub report_calls : ℤ → List ℕ → Store → Store
report_calls n [] s = s
report_calls n (c ∷ cs) s =
    report_calls n cs (record s { reported = update s.reported c (s.reported c +ℤ n) })

-- The second loop of `report`.
unfoldable pub pend_frame : ℤ → Store → FrameRef → Store
pend_frame n s f =
    let b = s.budgets f.budget in
    set_budget s f.budget (
      if is_run f
      then record b { pending = b.pending +ℤ n }
      else record b { step_pending = put b.step_pending f.step (b.step_pending f.step +ℤ n) })

unfoldable pub pend_frames : ℤ → Frame → Store → Store
pend_frames n [] s = s
pend_frames n (f ∷ fs) s = pend_frames n fs (pend_frame n s f)

-- `report`: outside a run nothing is counted.
unfoldable pub report_at : Clock → Frame → List ℕ → Usage → Store → Outcome
unfolding reported_by
report_at now [] calls usage s = (none, s)
report_at now (f ∷ fs) calls usage s =
    let unreported = max_ℤ (usage_tokens usage -ℤ reported_by s calls) (pos 0) in
    refusal now (f ∷ fs) (pend_frames unreported (f ∷ fs) (report_calls unreported calls s))

unfoldable pub report : Clock → RetryCall → Usage → Store → Outcome
unfolding report_at
report now r usage s = report_at now r.frame r.chain usage s

-- `next`
unfoldable pub next : Clock → RetryCall → Store → Outcome
next now r = admit now r.frame

-- `finish`: an outermost call leaves its pending tokens on its frame.
unfoldable pub finish_call : FrameRef → ℕ → Usage → Store → Store
finish_call f call usage s =
    let c = s.cells f.cell in
    if ltb_ℤ (pos 0) (s.reported call)
    then set_cell s f.cell (record c {
      returned =
          c.returned
          ++ record { call_tokens = usage_tokens usage; call_pending = s.reported call } ∷ [];
    })
    else s

unfoldable pub finish_at : Frame → List ℕ → Usage → Store → Store
unfolding finish_call
finish_at [] calls usage s = s
finish_at (f ∷ fs) [] usage s = s
finish_at (f ∷ fs) (call ∷ []) usage s = finish_call f call usage s
finish_at (f ∷ fs) (call ∷ outer ∷ calls) usage s = s

unfoldable pub finish : RetryCall → Usage → Store → Store
unfolding finish_at
finish r usage s = finish_at r.frame r.chain usage s
