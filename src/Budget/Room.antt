-- ===== src/Budget/Room.antt =====
-- `admit` of pipeline_budget.go: the room that each run and step around a call has for it.
use gepago.Base.{
  ◌≡◌, ◌↔◌, refl, sym, ap, subst, ◌∙◌, String, Bool, true, false, none, All, All-zip, All-map,
}
use gepago.Base.Int.{ℤ, pos, ◌+ℤ◌, ◌-ℤ◌, ◌≤ℤ◌, ◌<ℤ◌}
use gepago.Budget.Limits.{step_limit}
use gepago.Budget.Store.{
  FrameRef, Frame, Store, Spending, Outcome, is_run, spent, check_step_tokens,
}
use gepago.Budget.Walk.{
  Clock, check_frame, check, refusal_run, refusal_frame, refusal, reserve, admit, walk, ◌and_then◌,
}
use gepago.Budget.Checks.{
  Checked, Allowed, check_frame-none, check_frame_of, refusal_run-none, refusal_run_of,
  check_step_tokens-none, over_step_tokens-none, enforce_step_of_none, spent_step,
}
use gepago.Budget.Walks.{and_then-none, walk-none, walk_of_none}

-- A run has room for a call: it has not failed, it is in time, its tokens are within their limit,
-- and its calls are below theirs. A limit of zero or less limits nothing.
pub record RunRoom (now : ℤ) (b : Spending) : Type 0 where
  pub alive : b.err ≡ none
  pub in_time : pos 0 <ℤ b.limits.max_duration → now -ℤ b.start <ℤ b.limits.max_duration
  pub tokens_left : pos 0 <ℤ b.limits.max_tokens → b.tokens +ℤ b.pending ≤ℤ b.limits.max_tokens
  pub calls_left : pos 0 <ℤ b.limits.max_model_calls → b.calls <ℤ b.limits.max_model_calls

-- A step has room for a call: it has not failed, and its tokens are within its limit.
pub record StepRoom (b : Spending) (step : String) : Type 0 where
  pub alive : b.step_errs step ≡ none
  pub tokens_left :
      pos 0 <ℤ step_limit b.limits.per_step_tokens step
      → b.step_tokens step +ℤ b.step_pending step ≤ℤ step_limit b.limits.per_step_tokens step

abbrev pub Room : Clock → Store → FrameRef → Type 0
Room now s f =
    (is_run f ≡ true → RunRoom (now f.budget) (s.budgets f.budget))
    × (is_run f ≡ false → StepRoom (s.budgets f.budget) f.step)

refusal_frame_run :
    (s : Store) (f : FrameRef) → is_run f ≡ true → refusal_frame s f ≡ refusal_run s f
refusal_frame_run s f run = unfold refusal_frame in rw run

refusal_frame_step :
    (s : Store) (f : FrameRef)
    → is_run f ≡ false
    → refusal_frame s f ≡ check_step_tokens s f (spent s f)
refusal_frame_step s f step = unfold refusal_frame in rw step

refusal_frame-none :
    (s : Store) (f : FrameRef)
    → (refusal_frame s f).0 ≡ none
    → Allowed s f × ((refusal_frame s f).1 ≡ s)
refusal_frame-none s f h = by_kind (is_run f) refl
  where
    by_kind : (b : Bool) → is_run f ≡ b → Allowed s f × ((refusal_frame s f).1 ≡ s)
    by_kind true run =
        let e = refusal_frame_run s f run in
        let (p, same) = refusal_run-none s f run (rw e at h) in
        ((λ _. p, λ n. absurd (cc)), rw e same)
    by_kind false step =
        let e = refusal_frame_step s f step in
        let (p, same) = check_step_tokens-none s f (spent s f) (rw e at h) in
        let limit = step_limit (s.budgets f.budget).limits.per_step_tokens f.step in
        (
          (λ r. absurd (cc), λ _. subst (λ m. pos 0 <ℤ limit → m ≤ℤ limit) (spent_step s f step) p),
          rw e same,
        )

refusal_frame_of : (s : Store) (f : FrameRef) → Allowed s f → refusal_frame s f ≡ (none, s)
refusal_frame_of s f h = by_kind (is_run f) refl
  where
    by_kind : (b : Bool) → is_run f ≡ b → refusal_frame s f ≡ (none, s)
    by_kind true run = refusal_frame_run s f run ∙ refusal_run_of s f run (h.0 run)
    by_kind false step =
        let b = s.budgets f.budget in
        let limit = step_limit b.limits.per_step_tokens f.step in
        refusal_frame_step s f step
        ∙ unfold check_step_tokens in
          enforce_step_of_none s f (
            (over_step_tokens-none b f.step (spent s f)).1
              (subst (λ m. pos 0 <ℤ limit → m ≤ℤ limit) (sym (spent_step s f step)) (h.1 step)))

-- Both walks over the frames, put together.
checks-Room :
    (now : Clock) (s : Store) (f : FrameRef) → Checked now s f → Allowed s f → Room now s f
checks-Room now s f c a = (
  λ run. record {
    alive = (c.0 run).0;
    in_time = (c.0 run).1;
    tokens_left = (a.0 run).0;
    calls_left = (a.0 run).1;
  },
  λ step. record { alive = c.1 step; tokens_left = a.1 step },
)

-- A refusal finds nothing exactly when every frame has room, and then it changes nothing.
pub refusal-none :
    (now : Clock) (fs : Frame) (s : Store)
    → (refusal now fs s).0 ≡ none
    → All (Room now s) fs × (refusal now fs s ≡ (none, s))
unfolding refusal check
refusal-none now fs s h =
    let (p, q, e) = and_then-none (walk (check_frame now) fs s) (walk refusal_frame fs) h in
    let (checked, same) =
      walk-none (check_frame now) (λ t f k. (check_frame-none now t f k).1) fs s p in
    let k : (walk refusal_frame fs s).0 ≡ none =
      subst (λ t. (walk refusal_frame fs t).0 ≡ none) (ap (λ (r : Outcome). r.1) same) q in
    let (allowed, same') = walk-none refusal_frame (λ t f l. (refusal_frame-none t f l).1) fs s k in
    (
      All-zip fs
          (λ f c a. checks-Room now s f (check_frame-none now s f c).0 (refusal_frame-none s f a).0)
          checked allowed,
      e ∙ ap (λ (r : Outcome). walk refusal_frame fs r.1) same ∙ same',
    )

pub refusal_of_Room :
    (now : Clock) (fs : Frame) (s : Store) → All (Room now s) fs → refusal now fs s ≡ (none, s)
unfolding refusal check
refusal_of_Room now fs s room =
    let checked : walk (check_frame now) fs s ≡ (none, s) =
      walk_of_none (check_frame now) (λ t f k. (check_frame-none now t f k).1) fs s
        (All-map fs
          (λ f r.
            ap (λ (o : Outcome). o.0)
              (check_frame_of now s f
                (λ run. ((r.0 run).alive, (r.0 run).in_time), λ step. (r.1 step).alive)))
          room) in
    let allowed : walk refusal_frame fs s ≡ (none, s) =
      walk_of_none refusal_frame (λ t f l. (refusal_frame-none t f l).1) fs s
        (All-map fs
          (λ f r.
            ap (λ (o : Outcome). o.0)
              (refusal_frame_of s f (
                λ run. ((r.0 run).tokens_left, (r.0 run).calls_left),
                λ step. (r.1 step).tokens_left,
              )))
          room) in
    ap (λ (o : Outcome). o and_then walk refusal_frame fs) checked ∙ allowed

-- A model call is admitted exactly when every run and every step around it has room for it, and
-- admitting it only counts it.
pub admit-none_iff :
    (now : Clock) (fs : Frame) (s : Store) → ((admit now fs s).0 ≡ none) ↔ All (Room now s) fs
unfolding admit
admit-none_iff now fs s = (
  λ h. (refusal-none now fs s (and_then-none (refusal now fs s) (λ t. (none, reserve fs t)) h).0).0,
  λ room.
      ap (λ (o : Outcome). (o and_then (λ t. (none, reserve fs t))).0)
        (refusal_of_Room now fs s room),
)
