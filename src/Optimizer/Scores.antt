-- ===== src/Optimizer/Scores.antt =====
-- Scores of an evaluation, samples of examples, lessons and merged candidates: the helpers of
-- optimizer.go and optimizer_support.go that touch no state.
use Prim.Native.Nat.{Ordering, bit_xor}
use Prim.Native.String.{◌++◌ as append, compare as text_compare}
use gepago.Base.{
  ℕ, ◌+◌, ◌-◌, ◌*◌, ◌/◌, ◌%◌, ◌^◌, String, Bool, not, ◌||◌, Option, none, some, List, [], ◌∷◌, ◌++◌,
  leb, ltb, ◌==◌, if◌then◌else◌, length, get_elem?, take, drop,
}
use gepago.Base.Int.{ℤ, pos, negsuc}
use gepago.Floats.{Floats}
use gepago.Frontier.Defs.{keys}
use gepago.Frontier.Keys.{has}
use gepago.Optimizer.Data.{
  Types, Example, EvaluationItem, EvaluationResult, OptimizationConfig, Env, Candidate,
}

-- `m[k] = v` in a map in ascending order of its keys.
unfoldable pub insert {ℓ} : {V : Type ℓ} → String → V → List (String × V) → List (String × V)
insert k v [] = (k, v) ∷ []
insert k v ((j, w) ∷ m) = elim (text_compare k j) [
  | Ordering.lt ↦ (k, v) ∷ (j, w) ∷ m
  | Ordering.eq ↦ (k, v) ∷ m
  | Ordering.gt ↦ (j, w) ∷ insert k v m
]

-- `appendBoundedLesson`
unfoldable pub append_bounded_lesson : List String → String → List String
append_bounded_lesson lessons lesson =
    let longer = lessons ++ lesson ∷ [] in
    if ltb 25 (length longer) then drop (length longer - 25) longer else longer

-- `componentsForProposal` with `sortedCandidateKeys`: a candidate is listed in order of its names.
unfoldable pub components_for_proposal : List String → Candidate → List String
components_for_proposal [] candidate = keys candidate
components_for_proposal (c ∷ cs) candidate = c ∷ cs

-- `uint64(x)` of an `int64`, and back.
abbrev uint64 : ℤ → ℕ
uint64 (pos n) = n % 2 ^ 64
uint64 (negsuc n) = 2 ^ 64 - 1 - n % 2 ^ 64

abbrev int64 : ℕ → ℤ
int64 n = if ltb n (2 ^ 63) then pos n else negsuc (2 ^ 64 - 1 - n)

-- `seed ^= seed >> k` and `seed *= m` on a `uint64`.
abbrev shift_xor : ℕ → ℕ → ℕ
shift_xor k seed = bit_xor seed (seed / 2 ^ k)

abbrev times : ℕ → ℕ → ℕ
times m seed = (seed * m) % 2 ^ 64

-- The seed of `rngForIteration`.
unfoldable pub seed_for_iteration : ℤ → ℕ → ℤ
seed_for_iteration seed iteration =
    let mix : ℕ = 11400714819323198485 in
    let start = (uint64 seed + iteration * mix) % 2 ^ 64 in
    let once = times 13787848793156543929 (shift_xor 30 start) in
    int64 (shift_xor 31 (times 10723151780598845931 (shift_xor 27 once)))

-- `strings.Join`
unfoldable pub join : List String → String → String
join [] separator = ""
join (s ∷ ss) separator = elim ss [
  | [] ↦ s
  | _ ∷ _ ↦ append s (append separator (join ss separator))
]

module _ (F : Floats) (T : Types) where
  open F use {Num, nought, plus, over}

  -- `SumScore`
  unfoldable pub sum_from : Num → List (EvaluationItem F T) → Num
  sum_from acc [] = acc
  sum_from acc (i ∷ is) = sum_from (plus acc i.score) is

  unfoldable pub sum_score : EvaluationResult F T → Num
  unfolding sum_from
  sum_score r = sum_from nought r.items

  -- `AverageScore`
  unfoldable pub average_score : EvaluationResult F T → Num
  unfolding sum_score
  average_score r = if length r.items == 0 then nought else over (sum_score r) (length r.items)

  -- `EvaluationResult.Validate`
  unfoldable pub validate_result : (Env F T) → EvaluationResult F T → ℕ → Option T.Error
  validate_result E r expected =
      if length r.items == expected then none else some (E.wrong_count expected (length r.items))

  -- `scoresByExample`
  unfoldable pub scores_from : List (EvaluationItem F T) → List (String × Num) → List (String × Num)
  scores_from [] m = m
  scores_from (i ∷ is) m = scores_from is (insert i.example_id i.score m)

  unfoldable pub scores_by_example : EvaluationResult F T → List (String × Num)
  unfolding scores_from
  scores_by_example r = scores_from r.items []

  -- `objectiveScoresByExample`
  unfoldable pub objectives_from :
      List (EvaluationItem F T)
      → List (String × List (String × Num))
      → List (String × List (String × Num))
  objectives_from [] m = m
  objectives_from (i ∷ is) m =
      objectives_from is
        (if length i.objective_scores == 0 then m else insert i.example_id i.objective_scores m)

  unfoldable pub objective_scores_by_example :
      EvaluationResult F T → List (String × List (String × Num))
  unfolding objectives_from
  objective_scores_by_example r = objectives_from r.items []

  abbrev pub example_ids : List (Example F T) → List String
  example_ids [] = []
  example_ids (e ∷ es) = e.id ∷ example_ids es

  -- `rngForIteration`
  unfoldable pub rng_for_iteration : Env F T → ℤ → ℕ → T.Rng
  unfolding seed_for_iteration
  rng_for_iteration E seed iteration = E.new_rand (seed_for_iteration seed iteration)

  -- `lessonFromProposal`
  unfoldable pub lesson_from_proposal : Env F T → Bool → List String → Num → Num → String
  unfolding join
  lesson_from_proposal E accepted components before_sum after_sum =
      let status : String = if accepted then "accepted" else "rejected" in
      append status (
        append " update to [" (
          append (join components ", ") (
            append "]: minibatch score "
              (append (E.format_score before_sum) (append " -> " (E.format_score after_sum))))))

  -- `scoreForExamples`
  unfoldable pub score_among : Num → List (EvaluationItem F T) → List String → Num
  score_among acc [] wanted = acc
  score_among acc (i ∷ is) wanted =
      score_among (if has i.example_id wanted then plus acc i.score else acc) is wanted

  unfoldable pub score_for_examples : EvaluationResult F T → List (Example F T) → Num
  unfolding score_among
  score_for_examples r examples = score_among nought r.items (example_ids examples)

  -- The examples at these positions. `rand.Perm` gives none that is out of range.
  unfoldable pub pick : List (Example F T) → List ℕ → List (Example F T)
  pick examples [] = []
  pick examples (i ∷ is) = elim (get_elem? examples i) [
    | none ↦ pick examples is
    | some e ↦ e ∷ pick examples is
  ]

  -- `sampleExact`; the size is what is left of a budget, and stops at zero.
  unfoldable pub sample_exact : Env F T → List (Example F T) → ℕ → T.Rng → List (Example F T)
  unfolding pick
  sample_exact E examples size rng =
      if size == 0 || length examples == 0
      then []
      else if leb (length examples) size
      then examples
      else pick examples (take size (E.perm (length examples) rng).0)

  -- `sampleBatch`
  unfoldable pub sample_batch : Env F T → List (Example F T) → ℕ → ℕ → T.Rng → List (Example F T)
  unfolding sample_exact
  sample_batch E examples size remaining rng =
      sample_exact E examples (if ltb remaining size then remaining else size) rng

  -- `MergeCandidate`: base overlaid with the entries of the patch that are not blank.
  unfoldable pub merge_candidate : Env F T → Candidate → Candidate → Candidate
  unfolding insert
  merge_candidate E base [] = base
  merge_candidate E base ((k, v) ∷ patch) =
      merge_candidate E (if E.blank v then base else insert k v base) patch

  -- `validationSet`
  unfoldable pub validation_set : OptimizationConfig F T → List (Example F T)
  validation_set c = if ltb 0 (length c.valset) then c.valset else c.trainset

  -- The checks of `OptimizationConfig.Validate` on what is no interface: true where it passes.
  unfoldable pub config_valid : OptimizationConfig F T → Bool
  unfolding validation_set
  config_valid c = not (
      length c.seed_candidate == 0
      || length c.trainset == 0
      || c.max_metric_calls == 0
      || c.minibatch_size == 0
      || ltb c.max_metric_calls (length (validation_set c)))
