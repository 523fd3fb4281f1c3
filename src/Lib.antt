-- ===== src/Lib.antt =====
-- A verification library for gepago, a Go library that optimises the prompts of language model
-- programs (GEPA) and runs pipelines of steps under budgets.
--
-- The program's parts and the files that model them, by path from the repository's root:
--   * usage.go -> Usage: `Usage`, `Usage.Add`, `UsageLedger` and `AddUsage`, and `usageTokens`.
--   * pipeline_budget.go -> Budget: Limits has `RunBudget` and `validate`; Store has the state that
--     runs and steps share, by address, with `startRunBudget`, `enterStep`, `fail`, `checkTokens` and
--     `checkStepTokens`; Walk has the operations that walk from a frame to the outermost run, `check`,
--     `admit`, `admitAttempt`, `add`, `addUnbudgeted` and the totals; Retry has `retryAdmission`,
--     and Meter has `BudgetMeter`.
--     A frame is the list of itself and the frames around it; a lock is taken for the whole body
--     of each operation, so an operation is one function from a store to a store, and concurrency is
--     a sequence of operations (`Reach` of Budget/Reach).
--   * optimizer_support.go -> Frontier: Defs has the score dimensions, the winners, dominance, the
--     pruning loop and `computeFrontier`; and Optimizer/Scores and Optimizer/Select have the rest.
--   * optimizer.go and selection.go -> Optimizer: Data has the records and the interfaces, Scores the
--     scores, samples and lessons, Select the selectors, Monad the state and the errors of a
--     method, and Steps and Loop the methods of `Optimizer`, one function each, composed as in Go:
--     `runIteration` is `run_iteration`, the loop of `Run` is `run_loop`, `initializeState` is
--     `initialize_state`, and `Run` without resumption is `run`. Saved has `startState` and the checks
--     of optimizer_state.go, with `Run` that may be resumed as `run_from_start`; Split has split.go.
--   * pipeline_transition.go -> Transition: Defs has the compiled rules of transitions and the facts
--     that Build's two passes derive, `mark`, `cover`, `enter`, `reach` and `mayNotWrite`;
--     Compile has `compileTransition`, and Table `checkTransitions` and the plan of a run with its table.
--   * pipeline_transition_run.go, and `mergeWrites` of pipeline.go -> Flow: Data has `flowRun` and what
--     it is given, Values the maps of state values and their snapshots, Hooks the calls of a rule's
--     functions, Rewind the start and the end of a rewind, Visit a visit and `decide`, Failure
--     `failed`, and Loop `succeeded` and `run`, each a method on a `FlowRun`.
--   * retry_lm.go and model_errors.go -> Retry: Errors has the kinds of errors, Backoff the wait before
--     an attempt, and Call the loop of `retryCall`, whose attempts Budget admits.
--   * pipeline_exec.go -> Pipeline: Cache has what a run keeps between the executions of its steps, the
--     step cache with its journal above all, which a rewind starts and ends.
-- Base has what these share: tests, lists, maps, and Go's `int` as a signed integer over the native
-- numbers. Floats has what the code needs of float64.
--
-- The optimiser calls the frontier: `acceptCandidate`, `tryMerge` and `initializeState` set
-- `FrontierIDs` by `compute_frontier`. It adds the usage of each evaluation to the ledger of Usage.
-- Budget reads the tokens of a Usage. A run of Flow follows the rules that Transition checks. Pipelines,
-- which call these, are not modelled.
--
-- Parameters stand for what is not in the repository: the evaluator, the proposers, persistence,
-- observers, random sources and identifiers (the record `Env`, over a state of the world that
-- each call may change and with errors returned beside values), the clock, `fmt` and float64. Those
-- of Flow are in `FlowEnv`: the execution of a step, the journal of the step cache, the stages of
-- tools and the texts of errors; a rule's functions are hooks over the same world.
-- The floats of a wait's random share are the record `Shares`, and what IEEE 754 says of their products is
-- `ScalesShares`.
-- Theorems that need an order on scores take the hypothesis `IsOrdered`, which IEEE 754 gives for
-- numbers that are no NaN.
--
-- Bounds: `int` is an unbounded signed integer and the seeds of `rngForIteration` wrap at 64
-- bits. The loop of `Run` recurses on fuel; any fuel above what is left of `MaxMetricCalls` is
-- enough, as an entry below states. So do the loop of a run of transitions, with a bound that `MaxVisits`
-- and the steps give, and the loop of `failed`, which evaluates the rules at most twice. Counts that `Validate` makes positive are naturals.
--
-- Not modelled: times and contexts; the fingerprint of a configuration, which is given; the records
-- of tool calls in budgets; the keys of steps in the facts of Build and the types
-- of amendable keys; the texts of errors; the execution of a step, which a run of Flow is given; and
-- the state, the schemas, the tools, the traces, the providers, the agents and the programs of the
-- repository, which stand on pipelines or on providers of models.
pub mod Base
pub mod Usage
pub mod Budget
pub mod Floats
pub mod Frontier
pub mod Optimizer
pub mod Transition
pub mod Flow
pub mod Retry
pub mod Pipeline
