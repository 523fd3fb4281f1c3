-- ===== src/Optimizer/Saved.antt =====
-- optimizer_state.go, and `startState` of optimizer.go: a state that was saved, its checks before it is
-- resumed, and the start of a run from it.
use gepago.Base.{
  ℕ, String, Bool, true, false, not, ◌&&◌, Option, none, some, List, [], ◌∷◌, ◌==◌, str_eq,
  if◌then◌else◌, length,
}
use gepago.Base.Int.{ℤ, pos, pos_part, ltb_ℤ, eqb_ℤ}
use gepago.Usage.{UsageLedger}
use gepago.Floats.{Floats}
use gepago.Frontier.Defs.{CandidateRecord}
use gepago.Frontier.Keys.{has}
use gepago.Optimizer.Data.{Types, OptimizationState, OptimizationConfig, ProposalRecord, Span, Env}
use gepago.Optimizer.Scores.{validation_set}
use gepago.Optimizer.Monad.{Out, ok, err, St}
use gepago.Optimizer.Loop.{initialize_state, run_loop, after_loop}

-- The errors of `Validate`, without their texts.
pub data StateError : Type 0 where
  no_run_id no_start_time no_fingerprint : StateError
  negative_metric_calls negative_iterations no_candidates : StateError
  no_candidate_id no_best_id no_frontier : StateError
  candidate_duplicated candidate_empty best_not_found : String → StateError
  frontier_not_found frontier_duplicated : String → StateError

abbrev pub ids_of : {F : Floats} → List (CandidateRecord F) → List String
ids_of [] = []
ids_of (r ∷ rs) = r.id ∷ ids_of rs

module _ (F : Floats) (T : Types) where
  -- `OptimizationState` as it is loaded: its counts may be negative, and of its times and its ledger
  -- only whether they are zero is read.
  pub record SavedState : Type 0 where
    pub run_id : String
    pub started : Bool
    pub ended : Bool
    pub candidates : List (CandidateRecord F)
    pub proposal_records : List (ProposalRecord F T)
    pub lessons : List String
    pub best_candidate_id : String
    pub frontier_ids : List String
    pub metric_calls : ℤ
    pub iterations : ℤ
    pub ledger : UsageLedger
    pub ledger_is_zero : Bool
    pub spans : List (Span F T)
    pub config_fingerprint : String

  module _ (E : Env F T) where
    -- `validateIdentity`
    unfoldable pub validate_identity : SavedState → Option StateError
    validate_identity s =
        if E.blank s.run_id
        then some no_run_id
        else if not s.started
        then some no_start_time
        else if E.blank s.config_fingerprint
        then some no_fingerprint
        else none

    -- `validateCounters`
    unfoldable pub validate_counters : SavedState → Option StateError
    validate_counters s =
        if ltb_ℤ s.metric_calls (pos 0)
        then some negative_metric_calls
        else if ltb_ℤ s.iterations (pos 0)
        then some negative_iterations
        else if length s.candidates == 0
        then some no_candidates
        else none

    -- The loop of `candidateIndex`, with the names of the records before.
    unfoldable pub candidate_index : List String → List (CandidateRecord F) → Option StateError
    candidate_index seen [] = none
    candidate_index seen (r ∷ rs) =
        let rest = candidate_index (r.id ∷ seen) rs in
        if E.blank r.id
        then some no_candidate_id
        else if has r.id seen
        then some (candidate_duplicated r.id)
        else if length r.candidate == 0
        then some (candidate_empty r.id)
        else rest

    -- `validateBestCandidate`
    unfoldable pub validate_best_candidate : SavedState → List String → Option StateError
    validate_best_candidate s ids =
        if E.blank s.best_candidate_id
        then some no_best_id
        else if has s.best_candidate_id ids
        then none
        else some (best_not_found s.best_candidate_id)

    -- The loop of `validateFrontier`, with the names before.
    unfoldable pub frontier_from : List String → List String → List String → Option StateError
    frontier_from ids seen [] = none
    frontier_from ids seen (k ∷ ks) =
        let rest = frontier_from ids (k ∷ seen) ks in
        if not (has k ids)
        then some (frontier_not_found k)
        else if has k seen
        then some (frontier_duplicated k)
        else rest

    -- `validateFrontier`
    unfoldable pub validate_frontier : SavedState → List String → Option StateError
    unfolding frontier_from
    validate_frontier s ids =
        if length s.frontier_ids == 0 then some no_frontier else frontier_from ids [] s.frontier_ids

    -- The first error of two checks.
    abbrev pub first_error : Option StateError → Option StateError → Option StateError
    first_error none second = second
    first_error (some e) second = some e

    -- `Validate`
    unfoldable pub validate_state : SavedState → Option StateError
    unfolding validate_identity validate_counters candidate_index validate_best_candidate
        validate_frontier
    validate_state s = first_error (validate_identity s) (
        first_error (validate_counters s) (
          first_error (candidate_index [] s.candidates) (
            first_error (validate_best_candidate s (ids_of s.candidates))
              (validate_frontier s (ids_of s.candidates)))))

  -- `isMissing`
  unfoldable pub is_missing : SavedState → Bool
  is_missing s =
      (str_eq s.run_id "" && not s.started && not s.ended && str_eq s.config_fingerprint "")
      && (length s.candidates == 0
          && length s.proposal_records == 0
          && length s.lessons == 0
          && str_eq s.best_candidate_id ""
          && length s.frontier_ids == 0
          && length s.spans == 0)
      && (eqb_ℤ s.metric_calls (pos 0) && eqb_ℤ s.iterations (pos 0) && s.ledger_is_zero)

  -- The state that a run goes on from; of one that `Validate` refuses, counts below zero are not shown.
  abbrev pub resumed : SavedState → OptimizationState F T
  resumed s = record {
    run_id = s.run_id;
    config_fingerprint = s.config_fingerprint;
    iterations = pos_part s.iterations;
    metric_calls = pos_part s.metric_calls;
    candidates = s.candidates;
    best_candidate_id = s.best_candidate_id;
    frontier_ids = s.frontier_ids;
    proposal_records = s.proposal_records;
    lessons = s.lessons;
    ledger = s.ledger;
    spans = s.spans;
  }

  -- What `LoadOptimizationState` returns: a state, none, or another error beside what it
  -- has read.
  pub data Loaded : Type 0 where
    loaded : SavedState → Loaded
    not_found : Loaded
    load_failed : SavedState → T.Error → Loaded

  module _ (c : OptimizationConfig F T) (E : Env F T) where
    -- The texts of the errors of `startState`.
    pub record ResumeErrors : Type 0 where
      pub invalid : StateError → T.Error
      pub other_fingerprint : String → String → T.Error
      pub unreadable : T.Error → T.Error

    -- `startState` after a load.
    unfoldable pub start_loaded : ResumeErrors → Loaded → St F T → Out T.Error (Unit {0}) × St F T
    unfolding validate_state is_missing
    start_loaded R (load_failed s e) st = (err (R.unreadable e), record st { state = resumed s })
    start_loaded R not_found st = initialize_state F T c E st
    start_loaded R (loaded s) st =
        let fingerprint = E.config_fingerprint c (validation_set F T c) in
        if is_missing s then initialize_state F T c E st else (elim (validate_state E s) [
          | some e ↦ (err (R.invalid e), record st { state = resumed s })
          | none ↦
              if str_eq s.config_fingerprint fingerprint
              then (ok tt, record st { state = resumed s })
              else (
                err (R.other_fingerprint s.config_fingerprint fingerprint),
                record st { state = resumed s },
              )
        ])

    -- `startState`, of a run that resumes where `Resume` is set and there is a persistence.
    unfoldable pub start_state :
        ResumeErrors
        → Bool
        → Option (T.World → Loaded × T.World)
        → St F T
        → Out T.Error (Unit {0}) × St F T
    unfolding start_loaded
    start_state R resume none st = initialize_state F T c E st
    start_state R false (some load) st = initialize_state F T c E st
    start_state R true (some load) st =
        let (l, w) = load st.world in start_loaded R l (record st { world = w })

    -- `Run`, on fuel for its loop: from `startState` to the end.
    unfoldable pub run_from_start :
        ResumeErrors
        → Bool
        → Option (T.World → Loaded × T.World)
        → ℕ
        → St F T
        → Option (Out T.Error (Unit {0}) × St F T)
    unfolding start_state
    run_from_start R resume load fuel st =
        let (r, st1) = start_state R resume load st in
        let looped = run_loop F T c E fuel st1 in
        elim r [
          | err e ↦ some (err e, st1)
          | ok _ ↦ elim looped [ none ↦ none | some (r2, st2) ↦ some (after_loop F T c E r2 st2) ]
        ]
