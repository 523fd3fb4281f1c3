-- ===== src/Frontier/Defs.antt =====
-- optimizer_support.go: score dimensions, winners, dominance and the frontier. A Go map is the list
-- of its entries, each key once.
use Prim.Native.Nat.{Ordering}
use Prim.Native.String.{compare as text_compare}
use gepago.Base.{
  ℕ, ◌+◌, String, Bool, true, false, not, ◌&&◌, ◌||◌, Option, none, some, List, [], ◌∷◌, str_eq,
  if◌then◌else◌,
}
use gepago.Floats.{Floats}

module _ {ℓ} {V : Type ℓ} where
  -- A read of a map.
  unfoldable pub find : String → List (String × V) → Option V
  find k [] = none
  find k ((j, v) ∷ m) = if str_eq j k then some v else find k m

  -- `delete(m, k)`
  unfoldable pub erase : String → List (String × V) → List (String × V)
  erase k [] = []
  erase k ((j, v) ∷ m) = if str_eq j k then m else (j, v) ∷ erase k m

abbrev pub keys {ℓ} : {V : Type ℓ} → List (String × V) → List String
keys [] = []
keys ((k, v) ∷ m) = k ∷ keys m

-- `weights[id]++`
unfoldable pub bump : String → List (String × ℕ) → List (String × ℕ)
bump k [] = (k, 1) ∷ []
bump k ((j, n) ∷ m) = if str_eq j k then (j, n + 1) ∷ m else (j, n) ∷ bump k m

-- `sort.Strings`
unfoldable pub sort_in : String → List String → List String
sort_in k [] = k ∷ []
sort_in k (j ∷ js) = elim (text_compare k j) [ Ordering.gt ↦ j ∷ sort_in k js | _ ↦ k ∷ j ∷ js ]

unfoldable pub sort_strings : List String → List String
unfolding sort_in
sort_strings [] = []
sort_strings (k ∷ ks) = sort_in k (sort_strings ks)

-- `scoreDimension`
pub record Dimension : Type 0 where
  pub example_id : String
  pub objective : String

-- The order of `sort.Slice` in `scoreDimensions`.
unfoldable pub compare_dimensions : Dimension → Dimension → Ordering
compare_dimensions d e = elim (text_compare d.example_id e.example_id) [
  | Ordering.eq ↦ text_compare d.objective e.objective
  | other ↦ other
]

-- A dimension put where the sort puts it, unless it is there.
unfoldable pub see : Dimension → List Dimension → List Dimension
unfolding compare_dimensions
see d [] = d ∷ []
see d (e ∷ es) = elim (compare_dimensions d e) [
  | Ordering.lt ↦ d ∷ e ∷ es
  | Ordering.eq ↦ e ∷ es
  | Ordering.gt ↦ e ∷ see d es
]

module _ (F : Floats) where
  open F use {Num, nought, lt, eq}

  -- `CandidateRecord`, without the time it was discovered.
  pub record CandidateRecord : Type 0 where
    pub id : String
    pub candidate : List (String × String)
    pub parent_ids : List String
    pub train_score : Num
    pub validation_score : Num
    pub scores_by_example : List (String × Num)
    pub objective_scores_by_example : List (String × List (String × Num))

  -- `scoreDimension.score`; `none` is not ok.
  unfoldable pub score : Dimension → CandidateRecord → Option Num
  unfolding find
  score d r =
      if str_eq d.objective ""
      then find d.example_id r.scores_by_example
      else elim (find d.example_id r.objective_scores_by_example) [
        | none ↦ none
        | some scores ↦ find d.objective scores
      ]

  -- `scoreDimension.scoreByID`
  unfoldable pub score_by_id : Dimension → String → List CandidateRecord → Option Num
  unfolding score
  score_by_id d k [] = none
  score_by_id d k (r ∷ rs) = if str_eq r.id k then score d r else score_by_id d k rs

  -- The loop of `scoreDimension.best`, on the best so far and whether one was seen.
  unfoldable pub best_step : Num × Bool → Option Num → Num × Bool
  best_step (best, seen) none = (best, seen)
  best_step (best, seen) (some s) = if not seen || lt best s then (s, true) else (best, seen)

  unfoldable pub best_from : Num × Bool → Dimension → List CandidateRecord → Num × Bool
  best_from acc d [] = acc
  best_from acc d (r ∷ rs) = best_from (best_step acc (score d r)) d rs

  -- `scoreDimension.best`
  unfoldable pub best : Dimension → List CandidateRecord → Num
  unfolding best_from
  best d rs = (best_from (nought, false) d rs).0

  -- The loops of `scoreDimensions` over one record.
  unfoldable pub see_scores : List (String × Num) → List Dimension → List Dimension
  unfolding see
  see_scores [] ds = ds
  see_scores ((k, _) ∷ m) ds = see_scores m (see (record { example_id = k; objective = "" }) ds)

  unfoldable pub see_objectives : String → List (String × Num) → List Dimension → List Dimension
  unfolding see
  see_objectives k [] ds = ds
  see_objectives k ((o, _) ∷ m) ds =
      see_objectives k m (see (record { example_id = k; objective = o }) ds)

  unfoldable pub see_all_objectives :
      List (String × List (String × Num)) → List Dimension → List Dimension
  unfolding see_objectives
  see_all_objectives [] ds = ds
  see_all_objectives ((k, scores) ∷ m) ds = see_all_objectives m (see_objectives k scores ds)

  unfoldable pub see_records : List CandidateRecord → List Dimension → List Dimension
  unfolding see_scores see_all_objectives
  see_records [] ds = ds
  see_records (r ∷ rs) ds =
      see_records rs
        (see_all_objectives r.objective_scores_by_example (see_scores r.scores_by_example ds))

  -- `scoreDimensions`
  unfoldable pub score_dimensions : List CandidateRecord → List Dimension
  unfolding see_records
  score_dimensions rs = see_records rs []

  -- A record's entry in the weights, for its score on a dimension with this best score.
  unfoldable pub win : Option Num → Num → String → List (String × ℕ) → List (String × ℕ)
  win none top k weights = weights
  win (some s) top k weights = if eq s top then bump k weights else weights

  -- The inner loop of `instanceWinners`.
  unfoldable pub wins :
      Dimension → Num → List CandidateRecord → List (String × ℕ) → List (String × ℕ)
  wins d top [] weights = weights
  wins d top (r ∷ rs) weights = wins d top rs (win (score d r) top r.id weights)

  unfoldable pub winners_from :
      List Dimension → List CandidateRecord → List (String × ℕ) → List (String × ℕ)
  winners_from [] rs weights = weights
  winners_from (d ∷ ds) rs weights = winners_from ds rs (wins d (best d rs) rs weights)

  -- `instanceWinners`
  unfoldable pub instance_winners : List CandidateRecord → List (String × ℕ)
  instance_winners rs = winners_from (score_dimensions rs) rs []

  -- The loop of `dominates`: `none` where it returns false early, or the flag.
  unfoldable pub dominates_from :
      Bool → List Dimension → String → String → List CandidateRecord → Bool
  unfolding score_by_id
  dominates_from better [] left right rs = better
  dominates_from better (d ∷ ds) left right rs = elim (score_by_id d left rs) [
    | none ↦ false
    | some l ↦ elim (score_by_id d right rs) [
      | none ↦ false
      | some r ↦ if lt l r then false else dominates_from (better || lt r l) ds left right rs
    ]
  ]

  -- `dominates`
  unfoldable pub dominates : String → String → List CandidateRecord → Bool
  dominates left right rs = dominates_from false (score_dimensions rs) left right rs

  -- `dominatedByCandidate`
  unfoldable pub dominated_by_candidate : String → List String → List CandidateRecord → Bool
  unfolding dominates
  dominated_by_candidate k [] rs = false
  dominated_by_candidate k (other ∷ ks) rs =
      not (str_eq other k) && dominates other k rs || dominated_by_candidate k ks rs

  -- The loop of `frontierWeights`. Go ranges over a map in any order: `order` is that order. Only
  -- the entry that is visited is ever deleted.
  unfoldable pub prune : List String → List (String × ℕ) → List CandidateRecord → List (String × ℕ)
  unfolding dominated_by_candidate erase
  prune [] winners rs = winners
  prune (k ∷ order) winners rs =
      prune order (if dominated_by_candidate k (keys winners) rs then erase k winners else winners)
        rs

  -- `frontierWeights`, its map ranged over in the order that its entries were made.
  unfoldable pub frontier_weights : List CandidateRecord → List (String × ℕ)
  frontier_weights rs = let winners = instance_winners rs in prune (keys winners) winners rs

  -- `computeFrontier`
  unfoldable pub compute_frontier : List CandidateRecord → List String
  compute_frontier rs = sort_strings (keys (frontier_weights rs))
