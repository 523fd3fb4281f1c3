-- ===== src/Budget/Left.antt =====
-- `BudgetMeter` of pipeline_budget.go: what is left of the limits around a step.
use gepago.Base.{◌≡◌, ◌↔◌, refl, Bool, true, false, [], ◌∷◌, All, subst, sym, arith}
use gepago.Base.Int.{ℤ, pos, ◌-ℤ◌, ◌<ℤ◌, min_ℤ, max_ℤ, -ℤ_parts}
use gepago.Budget.Limits.{step_limit}
use gepago.Budget.Store.{FrameRef, Frame, Store, is_run, spent}
use gepago.Budget.Walk.{Clock}
use gepago.Budget.Meter.{
  BudgetRemaining, unlimited, least_left, run_left, step_left, remaining_frame, remaining_from,
  budget_remaining,
}

-- Something is left of every limit.
abbrev pub SomeLeft : BudgetRemaining → Type 0
SomeLeft r =
    (pos 0 <ℤ r.duration)
    × (pos 0 <ℤ r.model_calls)
    × (pos 0 <ℤ r.tokens)
    × (pos 0 <ℤ r.step_tokens)

-- The limit, where it is set, has not been used up.
abbrev pub Below : ℤ → ℤ → Type 0
Below used limit = pos 0 <ℤ limit → used <ℤ limit

-- A run or a step has used up none of its limits.
abbrev pub LimitsLeft : Clock → Store → FrameRef → Type 0
LimitsLeft now s f =
    let b = s.budgets f.budget in
    (is_run f ≡ true
      → Below (now f.budget -ℤ b.start) b.limits.max_duration
        × Below b.calls b.limits.max_model_calls
        × Below (spent s f) b.limits.max_tokens)
    × (is_run f ≡ false → Below (spent s f) (step_limit b.limits.per_step_tokens f.step))

least_left-positive :
    (limit used left : ℤ)
    → (pos 0 <ℤ least_left limit used left) ↔ ((pos 0 <ℤ left) × Below used limit)
unfolding least_left min_ℤ max_ℤ
least_left-positive limit used left = let parts = -ℤ_parts limit used in ground (arith, parts)

remaining_frame_run :
    (now : Clock) (s : Store) (f : FrameRef) (r : BudgetRemaining)
    → is_run f ≡ true
    → remaining_frame now s f r ≡ run_left now s f r
remaining_frame_run now s f r run = unfold remaining_frame in rw run

remaining_frame_step :
    (now : Clock) (s : Store) (f : FrameRef) (r : BudgetRemaining)
    → is_run f ≡ false
    → remaining_frame now s f r ≡ step_left s f r
remaining_frame_step now s f r step = unfold remaining_frame in rw step

remaining_frame-SomeLeft :
    (now : Clock) (s : Store) (f : FrameRef) (r : BudgetRemaining)
    → SomeLeft (remaining_frame now s f r) ↔ (SomeLeft r × LimitsLeft now s f)
remaining_frame-SomeLeft now s f r = by_kind (is_run f) refl
  where
    by_kind :
        (b : Bool)
        → is_run f ≡ b
        → SomeLeft (remaining_frame now s f r) ↔ (SomeLeft r × LimitsLeft now s f)
    by_kind true run =
        let same = remaining_frame_run now s f r run in
        let b = s.budgets f.budget in
        let (d, d') =
          least_left-positive b.limits.max_duration (now f.budget -ℤ b.start) r.duration in
        let (c, c') = least_left-positive b.limits.max_model_calls b.calls r.model_calls in
        let (t, t') = least_left-positive b.limits.max_tokens (spent s f) r.tokens in
        (
          λ h.
              let (hd, hc, ht, hs) = subst SomeLeft same h in
              (
                ((d hd).0, (c hc).0, (t ht).0, hs),
                (λ _. ((d hd).1, (c hc).1, (t ht).1), λ step. absurd (cc)),
              ),
          λ h.
              let (below, _) = h.1 in
              let (bd, bc, bt) = below run in
              subst SomeLeft (sym same) (d' (h.0.0, bd), c' (h.0.1, bc), t' (h.0.2, bt), h.0.3),
        )
    by_kind false step =
        let same = remaining_frame_step now s f r step in
        let b = s.budgets f.budget in
        let (t, t') =
          least_left-positive (step_limit b.limits.per_step_tokens f.step) (spent s f)
            r.step_tokens in
        (
          λ h.
              let (hd, hc, ht, hs) = subst SomeLeft same h in
              ((hd, hc, ht, (t hs).0), (λ run. absurd (cc), λ _. (t hs).1)),
          λ h.
              let (_, below) = h.1 in
              subst SomeLeft (sym same) (h.0.0, h.0.1, h.0.2, t' (h.0.3, below step)),
        )

remaining_from-SomeLeft :
    (now : Clock) (s : Store) (fs : Frame) (r : BudgetRemaining)
    → SomeLeft (remaining_from now s fs r) ↔ (SomeLeft r × All (LimitsLeft now s) fs)
unfolding remaining_from
remaining_from-SomeLeft now s [] r = (λ h. (h, tt), λ h. h.0)
remaining_from-SomeLeft now s (f ∷ fs) r =
    let (to, from) = remaining_from-SomeLeft now s fs (remaining_frame now s f r) in
    let (out, back) = remaining_frame-SomeLeft now s f r in
    (
      λ h. let (first, rest) = to h in let (before, here) = out first in (before, (here, rest)),
      λ h. let (here, rest) = h.1 in from (back (h.0, here), rest),
    )

-- The meter reports something left of every limit exactly when no run and no step around has used up
-- one of its limits.
pub budget_remaining-SomeLeft :
    (now : Clock) (frame : Frame) (s : Store)
    → SomeLeft (budget_remaining now frame s) ↔ All (LimitsLeft now s) frame
unfolding budget_remaining
budget_remaining-SomeLeft now frame s =
    let (to, from) = remaining_from-SomeLeft now s frame unlimited in
    let whole : SomeLeft unlimited = (omega arith, omega arith, omega arith, omega arith) in
    (λ h. (to h).1, λ h. from (whole, h))
