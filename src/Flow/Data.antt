-- ===== src/Flow/Data.antt =====
-- pipeline_transition_run.go: the state of a run of top-level steps, and what it is given. A Go map
-- that is only read and written by key is a function of its keys, and a set is a test.
use gepago.Base.{ℕ, String, Bool, Option, List}
use gepago.Base.Action.{Out, Action}
use gepago.Transition.Defs.{Target}

-- Types that the run only hands on: values of state keys, what a step staged for tools, errors, and
-- the state of everything outside.
pub record FlowTypes : Type 1 where
  pub Value : Type 0
  pub Staged : Type 0
  pub Error : Type 0
  pub World : Type 0

abbrev pub Keys : Type 0
Keys = String → Bool

module _ (T : FlowTypes) where
  abbrev pub Values : Type 0
  Values = String → Option T.Value

  -- A function that the pipeline is given: it may fail or panic, which is an error.
  abbrev pub Hook : Type 0 → Type 0
  Hook A = T.World → Out T.Error A × T.World

  -- `stateSnapshot`
  pub record Snapshot : Type 0 where
    pub values : Values
    pub defaulted : Keys

  -- `transitionRule`, as a run reads it. `amend` returns what it set, and a value that the state does
  -- not take is its error.
  pub record FlowRule : Type 0 where
    pub index : ℕ
    pub from : ℕ
    pub to : Target
    pub rewind : Bool
    pub fallback : Bool
    pub keys : Keys
    pub when : Option (Values → Option T.Error → Hook Bool)
    pub amend : Option (Values → Hook (List (String × T.Value)))
    pub accept : Option (Values → Values → Hook Bool)
    pub restore : Option (String → T.Error → Hook Bool)

  -- A top-level step: its name, the keys that it reads, and the keys that it writes in their order.
  pub record Node : Type 0 where
    pub name : String
    pub reads : Keys
    pub writes : Keys
    pub write_names : List String

  -- `Pipeline` with its `transitionTable`, as a run reads them.
  pub record Plan : Type 0 where
    pub steps : ℕ
    pub node : ℕ → Node
    pub success : ℕ → List FlowRule
    pub failure : ℕ → List FlowRule
    pub max_visits : ℕ → ℕ
    pub target : ℕ → Bool
    pub amendable : ℕ → Keys
    pub fallback : ℕ → Option ℕ
    -- The `MergeRule` of a key, and the conversion of what it returns to the key's type.
    pub merges : String → Option (T.Value → T.Value → Out T.Error T.Value)
    pub convert : String → T.Value → Out T.Error T.Value

  -- `stepResult`
  pub record StepResult : Type 0 where
    pub writes : Values
    pub staged : T.Staged

  -- `StepError`: the step, the values of its reads, and the error.
  pub record StepError : Type 0 where
    pub step : String
    pub reads : Values
    pub err : T.Error

  -- `pendingRewind`; `stage` is what the stage of its context holds.
  pub record PendingRewind : Type 0 where
    pub rule : FlowRule
    pub prev : Snapshot
    pub amended : Option Values
    pub stage : T.Staged

  -- `TransitionTakenEvent` and `RewindRejectedEvent`
  pub data FlowEvent : Type 0 where
    transition_taken : String → Target → ℕ → Bool → FlowEvent
    rewind_rejected : String → ℕ → Option T.Error → FlowEvent

  -- `flowRun`, with the events that it has reported. A missing entry of `before` is the empty
  -- snapshot.
  pub record FlowRun : Type 0 where
    pub values : Values
    pub defaulted : Keys
    pub visits : ℕ → ℕ
    pub before : ℕ → Snapshot
    pub rewind : Option PendingRewind
    pub events : List FlowEvent
    pub world : T.World

  -- `stepVisit`; Go's view is the map of the state's values unless `Amend` has set some, and a change
  -- of one changes the other: `shares_state`.
  pub record StepVisit : Type 0 where
    pub view : Values
    pub shares_state : Bool
    pub committed : Values
    pub staged : T.Staged
    pub err : Option T.Error
    pub rule : Option FlowRule
    pub accepted : Bool
    pub rejected : Bool
    pub accept_failed : Bool
    pub maxed : Bool
    pub amended : Option Values

  -- What pipeline_exec.go and the rest of the run do: the execution of a step on a view, for a visit
  -- and inside a rewind or not; its end, with the error that the check of its result found; the
  -- stages of tools, the journal of the step cache, the observers, and the texts of errors.
  pub record FlowEnv : Type 0 where
    pub run_node : ℕ → ℕ → Bool → Values → Hook StepResult
    pub end_node : ℕ → Option T.Error → T.World → T.World
    pub no_staged : T.Staged
    pub stage_add : T.Staged → T.Staged → T.Staged
    pub commit_staged : T.Staged → T.World → T.World
    pub start_journal : T.World → T.World
    pub end_journal : Bool → T.World → T.World
    pub offer : Option Values → T.World → T.World
    pub resolve_step : T.World → T.World
    pub context_ended : T.World → Bool
    pub hook_error : ℕ → String → T.Error → T.Error
    pub both_errors : T.Error → T.Error → T.Error
    pub max_visits_error : ℕ → ℕ → ℕ → ℕ → T.Error
    pub fail_error : ℕ → Option T.Error → T.Error
    pub not_amendable : ℕ → String → T.Error
    pub no_merge_rule : String → T.Error
    pub merge_failed : String → T.Error → T.Error

  abbrev pub Method : Type 0 → Type 0
  Method A = Action FlowRun StepError A
