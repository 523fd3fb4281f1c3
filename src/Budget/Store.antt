-- ===== src/Budget/Store.antt =====
-- The state that budgets share. The links from a frame to the frame around it never change, so a
-- frame is the list of itself and those around it, innermost first, and [] is the nil frame; what
-- changes stands in a store, by address: the spending of each run and the usage of each frame.
use gepago.Base.{
  ℕ, ◌+◌, String, Bool, Option, none, some, List, [], ◌∷◌, ◌&&◌, ◌||◌, str_eq, if◌then◌else◌,
  update, put,
}
use gepago.Base.Int.{ℤ, pos, ◌+ℤ◌, ltb_ℤ, leb_ℤ}
use gepago.Usage.{Usage, no_usage}
use gepago.Budget.Limits.{
  RunBudget, BudgetFailure, tokens_exceeded, step_tokens_exceeded, step_limit,
}

-- `returnedCall`
pub record ReturnedCall : Type 0 where
  pub call_tokens : ℤ
  pub call_pending : ℤ

-- What a `usageFrame` is made with: its address, that of its run's budget, and its step's name,
-- empty for a whole run.
pub record FrameRef : Type 0 where
  pub cell : ℕ
  pub budget : ℕ
  pub step : String

abbrev pub Frame : Type 0
Frame = List FrameRef

-- What changes of a `usageFrame`; `cause` is what its context was cancelled with.
pub record Cell : Type 0 where
  pub usage : Usage
  pub unbudgeted : Usage
  pub returned : List ReturnedCall
  pub cause : Option BudgetFailure

-- `runBudget`; `cause` is what the run's context was cancelled with.
pub record Spending : Type 0 where
  pub limits : RunBudget
  pub start : ℤ
  pub calls : ℤ
  pub tokens : ℤ
  pub pending : ℤ
  pub step_tokens : String → ℤ
  pub step_pending : String → ℤ
  pub step_errs : String → Option BudgetFailure
  pub err : Option BudgetFailure
  pub cause : Option BudgetFailure

-- The heap, with the next free addresses; `reported` is the field of each `retryAdmission`.
pub record Store : Type 0 where
  pub cells : ℕ → Cell
  pub budgets : ℕ → Spending
  pub next_cell : ℕ
  pub next_budget : ℕ
  pub reported : ℕ → ℤ
  pub next_call : ℕ

abbrev pub is_run : FrameRef → Bool
is_run f = str_eq f.step ""

abbrev pub set_budget : Store → ℕ → Spending → Store
set_budget s i b = record s { budgets = update s.budgets i b }

abbrev pub set_cell : Store → ℕ → Cell → Store
set_cell s i c = record s { cells = update s.cells i c }

-- A context keeps the first cause that it is cancelled with.
abbrev pub first_cause : Option BudgetFailure → BudgetFailure → Option BudgetFailure
first_cause none e = some e
first_cause (some c) e = some c

-- A run that has spent nothing.
abbrev pub new_run : RunBudget → ℤ → Spending
new_run limits now = record {
  limits = limits;
  start = now;
  calls = pos 0;
  tokens = pos 0;
  pending = pos 0;
  step_tokens = λ _. pos 0;
  step_pending = λ _. pos 0;
  step_errs = λ _. none;
  err = none;
  cause = none;
}

-- `startRunBudget`: a run frame for `limits` under `parent`, started at the clock's `now`.
unfoldable pub start_run : RunBudget → ℤ → Frame → Store → Frame × Store
start_run limits now parent s = (
  record { cell = s.next_cell; budget = s.next_budget; step = "" } ∷ parent,
  record s {
    cells =
        update s.cells s.next_cell
          (record { usage = no_usage; unbudgeted = no_usage; returned = []; cause = none });
    budgets = update s.budgets s.next_budget (new_run limits now);
    next_cell = s.next_cell + 1;
    next_budget = s.next_budget + 1;
  },
)

-- `enterStep`: outside a run there is no frame to open.
unfoldable pub enter_step : String → Frame → Store → Frame × Store
enter_step step [] s = ([], s)
enter_step step (f ∷ fs) s = (
  record { cell = s.next_cell; budget = f.budget; step = step } ∷ f ∷ fs,
  record s {
    cells =
        update s.cells s.next_cell
          (record { usage = no_usage; unbudgeted = no_usage; returned = []; cause = none });
    next_cell = s.next_cell + 1;
  },
)

-- `spent`: the tokens spent against the limit of a frame.
unfoldable pub spent : Store → FrameRef → ℤ
spent s f =
    let b = s.budgets f.budget in
    if is_run f then b.tokens +ℤ b.pending else b.step_tokens f.step +ℤ b.step_pending f.step

-- `fail`: the first error ends the run.
unfoldable pub fail : BudgetFailure → Spending → BudgetFailure × Spending
fail e b = elim b.err [
  | none ↦ (e, record b { err = some e; cause = first_cause b.cause e })
  | some first ↦ (first, b)
]

abbrev pub Outcome : Type 0
Outcome = Option BudgetFailure × Store

-- `return b.fail(err)` where a limit is exceeded, and on with no error where none is.
unfoldable pub enforce : Store → ℕ → Option BudgetFailure → Outcome
unfolding fail
enforce s i none = (none, s)
enforce s i (some e) = let (x, b) = fail e (s.budgets i) in (some x, set_budget s i b)

-- The failure of a run's token limit when these are spent.
unfoldable pub over_tokens : Spending → ℤ → Option BudgetFailure
over_tokens b spent =
    let limit = b.limits.max_tokens in
    if ltb_ℤ (pos 0) limit && ltb_ℤ limit spent then some (tokens_exceeded limit spent) else none

-- `checkTokens`
unfoldable pub check_tokens : Store → ℕ → ℤ → Outcome
unfolding over_tokens enforce
check_tokens s i spent = enforce s i (over_tokens (s.budgets i) spent)

-- The error that a step has failed with, or else its token limit's, which it fails with now.
abbrev pub step_failure : Option BudgetFailure → String → ℤ → ℤ → BudgetFailure
step_failure none step limit spent = step_tokens_exceeded step limit spent
step_failure (some first) step limit spent = first

-- The failure of a step's token limit when these are spent.
unfoldable pub over_step_tokens : Spending → String → ℤ → Option BudgetFailure
unfolding step_limit
over_step_tokens b step spent =
    let limit = step_limit b.limits.per_step_tokens step in
    if leb_ℤ limit (pos 0) || leb_ℤ spent limit
    then none
    else some (step_failure (b.step_errs step) step limit spent)

-- The end of `checkStepTokens`: the step keeps the error, and its context is cancelled with it.
unfoldable pub enforce_step : Store → FrameRef → Option BudgetFailure → Outcome
enforce_step s f none = (none, s)
enforce_step s f (some e) =
    let b = s.budgets f.budget in
    let c = s.cells f.cell in
    (
      some e,
      set_cell (set_budget s f.budget (record b { step_errs = put b.step_errs f.step (some e) }))
          f.cell (record c { cause = first_cause c.cause e }),
    )

-- `checkStepTokens`
unfoldable pub check_step_tokens : Store → FrameRef → ℤ → Outcome
unfolding over_step_tokens enforce_step
check_step_tokens s f spent = enforce_step s f (over_step_tokens (s.budgets f.budget) f.step spent)
