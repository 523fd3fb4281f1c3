-- ===== src/Optimizer/Data.antt =====
-- The records of optimizer.go, and what the optimiser is given: the evaluator, the proposers, the
-- selectors, persistence, observers, random numbers and identifiers. Times are left out.
use gepago.Base.{ℕ, String, Bool, Option, List}
use gepago.Base.Int.{ℤ}
use gepago.Usage.{Usage, UsageLedger}
use gepago.Floats.{Floats}
use gepago.Frontier.Defs.{CandidateRecord}

abbrev pub Candidate : Type 0
Candidate = List (String × String)

-- Types that the optimiser only hands on: inputs of examples, what an evaluation item holds besides
-- its scores, reflective datasets, the metadata of proposals, errors, the state of a random
-- source, and the state of everything outside.
pub record Types : Type 1 where
  pub Input : Type 0
  pub Payload : Type 0
  pub Dataset : Type 0
  pub Metadata : Type 0
  pub Error : Type 0
  pub Rng : Type 0
  pub World : Type 0

module _ (F : Floats) (T : Types) where
  pub record Example : Type 0 where
    pub id : String
    pub input : T.Input

  pub record EvaluationItem : Type 0 where
    pub example_id : String
    pub score : F.Num
    pub objective_scores : List (String × F.Num)
    pub payload : T.Payload

  pub record EvaluationResult : Type 0 where
    pub items : List EvaluationItem
    pub usage : Usage

  pub record ProposalRecord : Type 0 where
    pub id : String
    pub iteration : ℕ
    pub parent_ids : List String
    pub components : List String
    pub metadata : List T.Metadata
    pub minibatch_before_sum : F.Num
    pub minibatch_after_sum : F.Num
    pub accepted : Bool

  pub data OptimizationEvent : Type 0 where
    optimization_started : String → OptimizationEvent
    iteration_start candidate_proposed : String → ℕ → String → OptimizationEvent
    candidate_accepted : String → ℕ → String → String → F.Num → F.Num → OptimizationEvent
    candidate_rejected : String → ℕ → String → F.Num → F.Num → OptimizationEvent
    frontier_updated : String → ℕ → List String → OptimizationEvent
    optimization_ended : String → ℕ → String → List String → OptimizationEvent

  -- `UsageSpan`, as the optimiser makes it: its kind, its name, its usage and its error.
  pub record Span : Type 0 where
    pub trace_id : String
    pub kind : String
    pub name : String
    pub usage : Usage
    pub err : Option T.Error

  pub record OptimizationState : Type 0 where
    pub run_id : String
    pub config_fingerprint : String
    pub iterations : ℕ
    pub metric_calls : ℕ
    pub candidates : List (CandidateRecord F)
    pub best_candidate_id : String
    pub frontier_ids : List String
    pub proposal_records : List ProposalRecord
    pub lessons : List String
    pub ledger : UsageLedger
    pub spans : List Span

  -- `OptimizationConfig`, its interfaces apart; `seed` is that of `Optimizer`, 1 where the
  -- configuration has 0. Its counts are rejected by `Validate` where they are
  -- not positive, so they are naturals.
  pub record OptimizationConfig : Type 0 where
    pub seed_candidate : Candidate
    pub trainset : List Example
    pub valset : List Example
    pub components : List String
    pub enable_merge : Bool
    pub max_metric_calls : ℕ
    pub minibatch_size : ℕ
    pub seed : ℤ

  -- What a proposer reports of its latest call, where it is a `UsageReporter` or a
  -- `ModelCallReporter`.
  pub record Reporter : Type 0 where
    pub last_usage : Option (T.World → Usage)
    pub last_model_calls : Option (T.World → ℤ)

  -- The interfaces. A call that fails returns an error beside its value.
  pub record Env : Type 0 where
    pub evaluate :
        Candidate → List Example → Bool → T.World → EvaluationResult × Option T.Error × T.World
    pub build_dataset : Candidate → EvaluationResult → List String → T.Dataset
    pub set_lessons : List String → T.World → T.World
    pub propose :
        Candidate → T.Dataset → List String → T.World → Candidate × Option T.Error × T.World
    pub proposer : Reporter
    pub proposal_metadata : T.World → List T.Metadata
    -- None where no merge proposer is set.
    pub propose_merge : Option (
        CandidateRecord F
        → CandidateRecord F
        → List String
        → T.World
        → Candidate × Option T.Error × T.World)
    pub merge_proposer : Reporter
    pub select_candidate : OptimizationState → T.Rng → CandidateRecord F × T.Rng
    pub select_components : OptimizationState → CandidateRecord F → List String → List String
    pub should_accept : F.Num → F.Num → Bool
    pub observe : OptimizationEvent → T.World → T.World
    pub append_event : OptimizationEvent → T.World → Option T.Error × T.World
    pub save_state : OptimizationState → T.World → Option T.Error × T.World
    -- `fmt.Sprintf("%.4f", score)`
    pub format_score : F.Num → String
    pub wrong_count : ℕ → ℕ → T.Error
    pub new_id : T.World → String × T.World
    -- `rand.New(rand.NewSource(seed))`
    pub new_rand : ℤ → T.Rng
    pub perm : ℕ → T.Rng → List ℕ × T.Rng
    pub intn : ℕ → T.Rng → ℕ × T.Rng
    -- `configFingerprint`: the hash of a JSON text.
    pub config_fingerprint : OptimizationConfig → List Example → String
    -- `strings.TrimSpace(v) == ""`
    pub blank : String → Bool
