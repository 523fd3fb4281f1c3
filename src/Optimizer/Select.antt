-- ===== src/Optimizer/Select.antt =====
-- selection.go and the selection helpers of optimizer_support.go. `rng.Intn` is `intn` of the
-- environment, and an index out of range, which panics, is `none`.
use gepago.Base.{
  Bool, ℕ, ◌+◌, ◌-◌, ◌%◌, String, ◌||◌, Option, none, some, List, [], ◌∷◌, str_eq, ltb, ◌==◌,
  if◌then◌else◌, length, get_elem?,
}
use gepago.Floats.{Floats}
use gepago.Frontier.Defs.{CandidateRecord, find, frontier_weights}
use gepago.Optimizer.Data.{Types, OptimizationState, Env}
use gepago.Optimizer.Scores.{components_for_proposal}

-- `weights[id]`, zero for a missing key.
unfoldable pub weight : List (String × ℕ) → String → ℕ
unfolding find
weight weights k = elim (find k weights) [ none ↦ 0 | some n ↦ n ]

-- The first loop of `sampleWeightedFrontier`.
unfoldable pub total_weight : List String → List (String × ℕ) → ℕ
total_weight [] weights = 0
total_weight (k ∷ ks) weights = weight weights k + total_weight ks weights

-- Its second loop: the first frontier candidate whose weights pass `pick`, or the last one.
unfoldable pub pick_weighted : List String → List (String × ℕ) → ℕ → Option String
pick_weighted [] weights pick = none
pick_weighted (k ∷ ks) weights pick =
    let rest = pick_weighted ks weights (pick - weight weights k) in
    if ltb pick (weight weights k) then some k else rest

unfoldable pub last : List String → Option String
last [] = none
last (k ∷ []) = some k
last (k ∷ j ∷ ks) = last (j ∷ ks)

module _ (F : Floats) where
  open F use {lt}

  -- The first record of this name.
  unfoldable pub record_named : String → List (CandidateRecord F) → Option (CandidateRecord F)
  record_named k [] = none
  record_named k (r ∷ rs) = if str_eq r.id k then some r else record_named k rs

  -- `bestByValidation`
  unfoldable pub better_of : CandidateRecord F → List (CandidateRecord F) → CandidateRecord F
  better_of best [] = best
  better_of best (r ∷ rs) =
      better_of (if lt best.validation_score r.validation_score then r else best) rs

  unfoldable pub best_by_validation : List (CandidateRecord F) → Option (CandidateRecord F)
  unfolding better_of
  best_by_validation [] = none
  best_by_validation (r ∷ rs) = some (better_of r rs)

  -- The records of the first frontier candidates that have one, two at most.
  unfoldable pub frontier_records :
      List String → List (CandidateRecord F) → List (CandidateRecord F)
  unfolding record_named
  frontier_records [] rs = []
  frontier_records (k ∷ ks) rs = elim (record_named k rs) [
    | none ↦ frontier_records ks rs
    | some r ↦ r ∷ frontier_records ks rs
  ]

  abbrev first_two : List (CandidateRecord F) → Option (CandidateRecord F × CandidateRecord F)
  first_two [] = none
  first_two (l ∷ []) = none
  first_two (l ∷ r ∷ rs) = some (l, r)

  module _ (T : Types) where
    -- `bestRecord`
    unfoldable pub best_record : OptimizationState F T → Option (CandidateRecord F)
    unfolding record_named best_by_validation
    best_record s = elim (record_named s.best_candidate_id s.candidates) [
      | none ↦ best_by_validation s.candidates
      | some r ↦ some r
    ]

    -- `firstTwoFrontierRecords`
    unfoldable pub first_two_frontier_records :
        OptimizationState F T → Option (CandidateRecord F × CandidateRecord F)
    unfolding frontier_records
    first_two_frontier_records s = first_two (frontier_records s.frontier_ids s.candidates)

    module _ (E : Env F T) where
      -- `sampleWeightedFrontier`
      unfoldable pub sample_weighted_frontier :
          List String → List (String × ℕ) → T.Rng → Option String × T.Rng
      unfolding total_weight pick_weighted last
      sample_weighted_frontier ids weights rng =
          if total_weight ids weights == 0
          then (let (i, r) = E.intn (length ids) rng in (get_elem? ids i, r))
          else let (pick, r) = E.intn (total_weight ids weights) rng in
            (elim (pick_weighted ids weights pick) [ none ↦ last ids | some k ↦ some k ], r)

      -- The record of this name, or the best one of the state.
      abbrev named_or :
          Option String
          → OptimizationState F T
          → Option (CandidateRecord F)
          → Option (CandidateRecord F)
      named_or none s other = none
      named_or (some k) s other = elim (record_named k s.candidates) [
        | none ↦ other
        | some r ↦ some r
      ]

      -- `ParetoCandidateSelector.SelectCandidate` with `selectParent`
      unfoldable pub select_pareto :
          OptimizationState F T → T.Rng → Option (CandidateRecord F) × T.Rng
      unfolding sample_weighted_frontier record_named best_by_validation
      select_pareto s rng =
          if length s.frontier_ids == 0
          then (best_by_validation s.candidates, rng)
          else let (wanted, r) =
              sample_weighted_frontier s.frontier_ids (frontier_weights F s.candidates) rng in
            (named_or wanted s (best_by_validation s.candidates), r)

      -- `TopKParetoCandidateSelector.SelectCandidate`; a `K` that is not positive is zero here.
      unfoldable pub select_top_k :
          ℕ → OptimizationState F T → T.Rng → Option (CandidateRecord F) × T.Rng
      unfolding best_record record_named
      select_top_k k s rng =
          if length s.frontier_ids == 0
          then (best_record s, rng)
          else let n = length s.frontier_ids in
            let (i, r) = E.intn (if k == 0 || ltb n k then n else k) rng in
            (named_or (get_elem? s.frontier_ids i) s (best_record s), r)

      -- `EpsilonGreedyCandidateSelector.SelectCandidate`, where `explores` draws `rng.Float64()` and
      -- compares it with an `Epsilon` that is positive, and is none where it is not.
      unfoldable pub select_epsilon_greedy :
          Option (T.Rng → Bool × T.Rng)
          → OptimizationState F T
          → T.Rng
          → Option (CandidateRecord F) × T.Rng
      unfolding best_record
      select_epsilon_greedy explores s rng =
          if length s.candidates == 0 then (none, rng) else (elim explores [
            | none ↦ (best_record s, rng)
            | some draw ↦
                let (explore, r) = draw rng in
                let (i, r') = E.intn (length s.candidates) r in
                if explore then (get_elem? s.candidates i, r') else (best_record s, r)
          ])

  -- `StrictImprovementAcceptance.ShouldAccept` and `ImprovementOrEqualAcceptance.ShouldAccept`
  abbrev pub strict_improvement : F.Num → F.Num → Bool
  strict_improvement before after = F.lt before after

  abbrev pub improvement_or_equal : F.Num → F.Num → Bool
  improvement_or_equal before after = F.lt before after || F.eq before after

  -- `RoundRobinComponentSelector.SelectComponents`
  unfoldable pub select_round_robin : ℕ → CandidateRecord F → List String → List String
  unfolding components_for_proposal
  select_round_robin iterations r configured =
      let components = components_for_proposal configured r.candidate in
      elim (get_elem? components (iterations % length components)) [ none ↦ [] | some c ↦ c ∷ [] ]
