-- ===== src/Budget/Limits.antt =====
-- `RunBudget` and its `validate`, and the failures that name a limit.
use gepago.Base.{String, Option, none, some, List, [], ◌∷◌, str_eq, if◌then◌else◌}
use gepago.Base.Int.{ℤ, pos, ltb_ℤ, leb_ℤ}

-- A zero field sets no limit. `per_step_tokens` lists the map in ascending order of its names.
pub record RunBudget : Type 0 where
  pub max_duration : ℤ
  pub max_model_calls : ℤ
  pub max_tokens : ℤ
  pub per_step_tokens : List (String × ℤ)

-- The budget errors, with what their messages name.
pub data BudgetFailure : Type 0 where
  duration_exceeded : ℤ → BudgetFailure
  model_calls_exceeded : ℤ → ℤ → BudgetFailure
  tokens_exceeded : ℤ → ℤ → BudgetFailure
  step_tokens_exceeded : String → ℤ → ℤ → BudgetFailure

pub data BudgetInvalid : Type 0 where
  negative_duration negative_model_calls negative_tokens : BudgetInvalid
  step_not_positive : String → BudgetInvalid

-- A read of the map: zero for a missing name.
unfoldable pub step_limit : List (String × ℤ) → String → ℤ
step_limit [] step = pos 0
step_limit ((name, limit) ∷ m) step = if str_eq name step then limit else step_limit m step

-- The loop over the sorted names.
unfoldable pub validate_steps : List (String × ℤ) → Option BudgetInvalid
validate_steps [] = none
validate_steps ((name, limit) ∷ m) =
    if leb_ℤ limit (pos 0) then some (step_not_positive name) else validate_steps m

unfoldable pub validate : RunBudget → Option BudgetInvalid
validate b =
    if ltb_ℤ b.max_duration (pos 0)
    then some negative_duration
    else if ltb_ℤ b.max_model_calls (pos 0)
    then some negative_model_calls
    else if ltb_ℤ b.max_tokens (pos 0)
    then some negative_tokens
    else validate_steps b.per_step_tokens
