-- ===== src/Budget/Recording.antt =====
-- The operations of pipeline_budget.go that record usage and open frames.
use gepago.Base.{
  ℕ, ◌≡◌, refl, sym, subst, String, Option, List, [], ◌∷◌, Bool-cases, inl, inr, if-rel,
}
use gepago.Base.Int.{ℤ, pos, ltb_ℤ}
use gepago.Usage.{Usage, add_usage, usage_tokens}
use gepago.Budget.Store.{
  FrameRef, Frame, Store, Spending, Cell, is_run, set_budget, set_cell, spent, enter_step,
}
use gepago.Budget.Walk.{
  Clock, count_run, count_step, add_run, add_step, add_frame, add_frames, add, add_unbudgeted,
}
use gepago.Budget.Retry.{
  RetryCall, begin_retry, report_calls, pend_frame, pend_frames, report_at, report, finish_call,
  finish_at, finish,
}
use gepago.Budget.Sticky.{
  Sticks, Sticks-refl, Stays, Stays-refl, Stays-trans, set_budget-Stays, check_tokens-Stays,
  check_step_tokens-Stays, refusal-Stays,
}

-- A store with the same runs.
pub same_runs-Stays :
    (s t : Store) → t.next_budget ≡ s.next_budget → t.budgets ≡ s.budgets → Stays s t
same_runs-Stays s t n e = record {
  same = n;
  runs = λ i h.
      subst (λ (b : ℕ → Spending). Sticks (s.budgets i) (b i)) (sym e) (Sticks-refl (s.budgets i));
}

set_cell-Stays : (s : Store) (i : ℕ) (c : Cell) → Stays s (set_cell s i c)
set_cell-Stays s i c = same_runs-Stays s (set_cell s i c) refl refl

counts-Stays :
    (s : Store) (i : ℕ) (tokens pending : ℤ)
    → Stays s (set_budget s i (record (s.budgets i) { pending = pending; tokens = tokens }))
counts-Stays s i tokens pending =
    set_budget-Stays s i _
      (record { limits = refl; calls = refl; err = λ e h. h; step_errs = λ n e h. h })

step_counts-Stays :
    (s : Store) (i : ℕ) (tokens pending : String → ℤ)
    → Stays s
        (set_budget s i (record (s.budgets i) { step_pending = pending; step_tokens = tokens }))
step_counts-Stays s i tokens pending =
    set_budget-Stays s i _
      (record { limits = refl; calls = refl; err = λ e h. h; step_errs = λ n e h. h })

add_run-Stays :
    (tokens settled : ℤ) (s : Store) (f : FrameRef) → Stays s (add_run tokens settled s f)
unfolding add_run count_run
add_run-Stays tokens settled s f =
    let t = count_run tokens settled s f in
    Stays-trans s t _ (counts-Stays s f.budget _ _) (check_tokens-Stays t f.budget (spent t f))

add_step-Stays :
    (tokens settled : ℤ) (s : Store) (f : FrameRef) → Stays s (add_step tokens settled s f)
unfolding add_step count_step
add_step-Stays tokens settled s f =
    let t = count_step tokens settled s f in
    Stays-trans s t _ (step_counts-Stays s f.budget _ _) (check_step_tokens-Stays t f (spent t f))

add_frame-Stays :
    (usage : Usage) (tokens settled : ℤ) (s : Store) (f : FrameRef)
    → Stays s (add_frame usage tokens settled s f)
add_frame-Stays usage tokens settled s f =
    let c = s.cells f.cell in
    let t = set_cell s f.cell (record c { usage = add_usage c.usage usage }) in
    elim (Bool-cases (is_run f)) [
      | inl run ↦
          unfold add_frame in
          rw run (Stays-trans s t _ (set_cell-Stays s f.cell _) (add_run-Stays tokens settled t f))
      | inr step ↦
          unfold add_frame in
          rw step
            (Stays-trans s t _ (set_cell-Stays s f.cell _) (add_step-Stays tokens settled t f))
    ]

pub add_frames-Stays :
    (usage : Usage) (tokens settled : ℤ) (fs : Frame) (s : Store)
    → Stays s (add_frames usage tokens settled fs s)
unfolding add_frames
add_frames-Stays usage tokens settled [] s = Stays-refl s
add_frames-Stays usage tokens settled (f ∷ fs) s =
    Stays-trans s _ _ (add_frame-Stays usage tokens settled s f)
      (add_frames-Stays usage tokens settled fs (add_frame usage tokens settled s f))

pub add-Stays : (usage : Usage) (fs : Frame) (s : Store) → Stays s (add usage fs s)
unfolding add
add-Stays usage [] s = Stays-refl s
add-Stays usage (f ∷ fs) s =
    Stays-trans s _ _ (set_cell-Stays s f.cell _)
      (add_frames-Stays usage (usage_tokens usage) _ (f ∷ fs) _)

pub add_unbudgeted-Stays :
    (usage : Usage) (fs : Frame) (s : Store) → Stays s (add_unbudgeted usage fs s)
unfolding add_unbudgeted
add_unbudgeted-Stays usage [] s = Stays-refl s
add_unbudgeted-Stays usage (f ∷ fs) s =
    Stays-trans s _ _ (set_cell-Stays s f.cell _) (add_unbudgeted-Stays usage fs _)

pub enter_step-Stays : (step : String) (fs : Frame) (s : Store) → Stays s (enter_step step fs s).1
unfolding enter_step
enter_step-Stays step [] s = Stays-refl s
enter_step-Stays step (f ∷ fs) s = same_runs-Stays s _ refl refl

pub begin_retry-Stays :
    (fs : Frame) (carried : Option RetryCall) (s : Store) → Stays s (begin_retry fs carried s).2
unfolding begin_retry
begin_retry-Stays [] carried s = Stays-refl s
begin_retry-Stays (f ∷ fs) carried s = same_runs-Stays s _ refl refl

report_calls-Stays : (n : ℤ) (cs : List ℕ) (s : Store) → Stays s (report_calls n cs s)
unfolding report_calls
report_calls-Stays n [] s = Stays-refl s
report_calls-Stays n (c ∷ cs) s =
    Stays-trans s _ _ (same_runs-Stays s _ refl refl) (report_calls-Stays n cs _)

pend_frame-Stays : (n : ℤ) (s : Store) (f : FrameRef) → Stays s (pend_frame n s f)
pend_frame-Stays n s f = elim (Bool-cases (is_run f)) [
  | inl run ↦ unfold pend_frame in rw run (counts-Stays s f.budget _ _)
  | inr step ↦ unfold pend_frame in rw step (step_counts-Stays s f.budget _ _)
]

pend_frames-Stays : (n : ℤ) (fs : Frame) (s : Store) → Stays s (pend_frames n fs s)
unfolding pend_frames
pend_frames-Stays n [] s = Stays-refl s
pend_frames-Stays n (f ∷ fs) s =
    Stays-trans s _ _ (pend_frame-Stays n s f) (pend_frames-Stays n fs (pend_frame n s f))

report_at-Stays :
    (now : Clock) (fs : Frame) (calls : List ℕ) (usage : Usage) (s : Store)
    → Stays s (report_at now fs calls usage s).1
unfolding report_at
report_at-Stays now [] calls usage s = Stays-refl s
report_at-Stays now (f ∷ fs) calls usage s =
    Stays-trans s _ _ (report_calls-Stays _ calls s)
      (Stays-trans _ _ _ (pend_frames-Stays _ (f ∷ fs) _) (refusal-Stays now (f ∷ fs) _))

pub report-Stays :
    (now : Clock) (r : RetryCall) (usage : Usage) (s : Store) → Stays s (report now r usage s).1
unfolding report
report-Stays now r usage s = report_at-Stays now r.frame r.chain usage s

finish_call-Stays :
    (f : FrameRef) (call : ℕ) (usage : Usage) (s : Store) → Stays s (finish_call f call usage s)
unfolding finish_call
finish_call-Stays f call usage s =
    if-rel (λ t. Stays s t) (ltb_ℤ (pos 0) (s.reported call)) _ _ (λ _. set_cell-Stays s f.cell _)
      (λ _. Stays-refl s)

finish_at-Stays :
    (fs : Frame) (calls : List ℕ) (usage : Usage) (s : Store) → Stays s (finish_at fs calls usage s)
unfolding finish_at
finish_at-Stays [] calls usage s = Stays-refl s
finish_at-Stays (f ∷ fs) [] usage s = Stays-refl s
finish_at-Stays (f ∷ fs) (call ∷ []) usage s = finish_call-Stays f call usage s
finish_at-Stays (f ∷ fs) (call ∷ outer ∷ calls) usage s = Stays-refl s

pub finish-Stays : (r : RetryCall) (usage : Usage) (s : Store) → Stays s (finish r usage s)
unfolding finish
finish-Stays r usage s = finish_at-Stays r.frame r.chain usage s
