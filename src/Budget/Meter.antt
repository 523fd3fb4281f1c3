-- ===== src/Budget/Meter.antt =====
-- `BudgetMeter` of pipeline_budget.go. `math.MaxInt` and `math.MaxInt64` are one number.
use gepago.Base.{◌-◌, ◌^◌, [], ◌∷◌, if◌then◌else◌}
use gepago.Base.Int.{ℤ, pos, ◌-ℤ◌, ltb_ℤ, min_ℤ, max_ℤ}
use gepago.Budget.Limits.{step_limit}
use gepago.Budget.Store.{FrameRef, Frame, Store, is_run, spent}
use gepago.Budget.Walk.{Clock}

-- `BudgetRemaining`
pub record BudgetRemaining : Type 0 where
  pub duration : ℤ
  pub model_calls : ℤ
  pub tokens : ℤ
  pub step_tokens : ℤ

abbrev pub max_int : ℤ
max_int = pos (2 ^ 63 - 1)

abbrev pub unlimited : BudgetRemaining
unlimited = record {
  duration = max_int;
  model_calls = max_int;
  tokens = max_int;
  step_tokens = max_int;
}

-- What is left of a limit, of which this has been used, or of the limits before.
unfoldable pub least_left : ℤ → ℤ → ℤ → ℤ
unfolding min_ℤ max_ℤ
least_left limit used left =
    if ltb_ℤ (pos 0) limit then min_ℤ left (max_ℤ (limit -ℤ used) (pos 0)) else left

-- What a run around the step leaves, and what a step leaves.
abbrev pub run_left : Clock → Store → FrameRef → BudgetRemaining → BudgetRemaining
run_left now s f r =
    let b = s.budgets f.budget in
    record {
      duration = least_left b.limits.max_duration (now f.budget -ℤ b.start) r.duration;
      model_calls = least_left b.limits.max_model_calls b.calls r.model_calls;
      tokens = least_left b.limits.max_tokens (spent s f) r.tokens;
      step_tokens = r.step_tokens;
    }

abbrev pub step_left : Store → FrameRef → BudgetRemaining → BudgetRemaining
step_left s f r =
    let b = s.budgets f.budget in
    record r {
      step_tokens =
          least_left (step_limit b.limits.per_step_tokens f.step) (spent s f) r.step_tokens;
    }

-- One frame of the loop of `Remaining`.
unfoldable pub remaining_frame : Clock → Store → FrameRef → BudgetRemaining → BudgetRemaining
remaining_frame now s f r = if is_run f then run_left now s f r else step_left s f r

unfoldable pub remaining_from : Clock → Store → Frame → BudgetRemaining → BudgetRemaining
unfolding remaining_frame
remaining_from now s [] r = r
remaining_from now s (f ∷ fs) r = remaining_from now s fs (remaining_frame now s f r)

-- `Remaining`
unfoldable pub budget_remaining : Clock → Frame → Store → BudgetRemaining
unfolding remaining_from
budget_remaining now frame s = remaining_from now s frame unlimited
