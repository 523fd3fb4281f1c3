-- ===== src/Optimizer/Loop.antt =====
-- optimizer.go: the evaluation of a proposal, merging, and the loop of `Optimizer.Run`.
use gepago.Base.{
  ℕ, zero, suc, ◌+◌, ◌-◌, String, Bool, true, false, ◌&&◌, Option, none, some, List, [], ◌∷◌, ◌++◌,
  leb, ltb, ◌==◌, if◌then◌else◌, length,
}
use gepago.Base.Int.{pos}
use gepago.Usage.{no_ledger}
use gepago.Floats.{Floats}
use gepago.Frontier.Defs.{CandidateRecord, compute_frontier}
use gepago.Optimizer.Data.{
  Types, Example, EvaluationResult, optimization_started, optimization_ended, OptimizationState,
  OptimizationConfig, Env, Candidate,
}
use gepago.Optimizer.Scores.{
  rng_for_iteration, components_for_proposal, sum_score, average_score, scores_by_example,
  objective_scores_by_example, score_for_examples, sample_exact, merge_candidate, validation_set,
}
use gepago.Optimizer.Select.{first_two_frontier_records}
use gepago.Optimizer.Monad.{
  Action, St, Out, ok, err, pure, ◌>>=◌, ◌>>◌, get, modify, outside, check,
}
use gepago.Optimizer.Steps.{
  Attempt, Proposed, stop, attempt, emit, save, evaluate, record_proposer_usage,
  propose_for_iteration, record_proposal, reject_candidate, add_candidate, emit_accepted,
}

module _ (F : Floats) (T : Types) (c : OptimizationConfig F T) (E : Env F T) where
  abbrev pub Record : Type 0
  Record = CandidateRecord F

  -- What is left of the metric calls.
  abbrev pub remaining : OptimizationState F T → ℕ
  remaining s = c.max_metric_calls - s.metric_calls

  -- The part of `acceptCandidate` after its guard.
  unfoldable pub accept_within :
      Record → Attempt F T → EvaluationResult F T → F.Num → F.Num → Action F T (Unit {0})
  accept_within parent a after before_sum after_sum = do
    s ← get
    let batch =
        sample_exact F T E (validation_set F T c) (remaining s)
          (rng_for_iteration F T E c.seed s.iterations)
    val ← evaluate F T c E "evaluator.validation" "proposal" a.candidate batch false
    id ← outside E.new_id
    record_proposal F T c E true parent a before_sum after_sum
    modify (
        add_candidate F T c E (record {
          id = id;
          candidate = a.candidate;
          parent_ids = parent.id ∷ [];
          train_score = average_score F T after;
          validation_score = average_score F T val;
          scores_by_example = scores_by_example F T val;
          objective_scores_by_example = objective_scores_by_example F T val;
        }))
    emit_accepted F T c E parent.id id before_sum after_sum

  -- `acceptCandidate`
  unfoldable pub accept_candidate :
      Record → Attempt F T → EvaluationResult F T → F.Num → F.Num → Action F T (Unit {0})
  accept_candidate parent a after before_sum after_sum = do
    s ← get
    if leb c.max_metric_calls s.metric_calls
        then pure tt
        else accept_within parent a after before_sum after_sum

  -- The part of `evaluateProposal` after its guard: true where the criterion accepts.
  unfoldable pub evaluate_within : Record → Attempt F T → Action F T Bool
  evaluate_within parent a = do
    s ← get
    let batch =
        sample_exact F T E a.batch (remaining s) (rng_for_iteration F T E c.seed s.iterations)
    after ← evaluate F T c E "evaluator.train" "proposal" a.candidate batch false
    let before_sum = score_for_examples F T a.before batch
    let after_sum = sum_score F T after
    if E.should_accept before_sum after_sum
        then (accept_candidate parent a after before_sum after_sum >> pure true)
        else (reject_candidate F T c E parent a before_sum after_sum >> pure false)

  -- `evaluateProposal`
  unfoldable pub evaluate_proposal : Record → Attempt F T → Action F T Bool
  evaluate_proposal parent a = do
    s ← get
    if leb c.max_metric_calls s.metric_calls then pure false else evaluate_within parent a

  -- The record of a merged candidate that is kept.
  unfoldable pub merged_record :
      Record → Record → Candidate → EvaluationResult F T → Action F T (Option Record)
  merged_record left right merged val = do
    id ← outside E.new_id
    pure (
        some (record {
          id = id;
          candidate = merged;
          parent_ids = left.id ∷ right.id ∷ [];
          train_score = F.nought;
          validation_score = average_score F T val;
          scores_by_example = scores_by_example F T val;
          objective_scores_by_example = objective_scores_by_example F T val;
        }))

  -- The part of `evaluateMerge` after the patch: `none` where the merged candidate is not kept.
  unfoldable pub evaluate_merged :
      Record → Record → Candidate → List (Example F T) → Action F T (Option Record)
  evaluate_merged left right merged batch = do
    val ← evaluate F T c E "evaluator.validation" "proposal" merged batch false
    let merged_score = average_score F T val
    if F.lt merged_score left.validation_score && F.lt merged_score right.validation_score
        then pure none
        else merged_record left right merged val

  -- `evaluateMerge`, with the merge proposer that is set.
  unfoldable pub evaluate_merge :
      (Record → Record → List String → T.World → Candidate × Option T.Error × T.World)
      → Record
      → Record
      → Action F T (Option Record)
  evaluate_merge propose_merge left right = do
    (patch, e) ← outside (λ w.
        let (p, e, w') =
          propose_merge left right (components_for_proposal c.components left.candidate) w in
        ((p, e), w'))
    record_proposer_usage F T c E E.merge_proposer "llm.merge" "merge proposer" e
    check e
    s ← get
    let batch =
        sample_exact F T E (validation_set F T c) (remaining s)
          (rng_for_iteration F T E c.seed s.iterations)
    let merged = merge_candidate F T E left.candidate patch
    if length batch == 0 then pure none else evaluate_merged left right merged batch

  -- The end of `tryMerge`.
  unfoldable pub keep_merged : Option Record → Action F T (Unit {0})
  keep_merged none = pure tt
  keep_merged (some r) = modify (add_candidate F T c E r) >> save F T c E

  -- `canMerge`
  abbrev pub can_merge : OptimizationState F T → Bool
  can_merge s =
      let set : Bool = elim E.propose_merge [ none ↦ false | some _ ↦ true ] in
      c.enable_merge
      && set
      && leb 2 (length s.frontier_ids)
      && ltb s.metric_calls c.max_metric_calls

  unfoldable pub merge_pair : Option (Record × Record) → Action F T (Unit {0})
  merge_pair none = pure tt
  merge_pair (some (left, right)) = elim E.propose_merge [
    | none ↦ pure tt
    | some propose ↦ evaluate_merge propose left right >>= keep_merged
  ]

  -- `tryMerge`
  unfoldable pub try_merge : Action F T (Unit {0})
  try_merge = do
    s ← get
    if can_merge s then merge_pair (first_two_frontier_records F T s) else pure tt

  -- The end of `runIteration`, with what `evaluateProposal` returns.
  unfoldable pub after_proposal : Bool → Action F T Bool
  after_proposal accepted =
      if accepted
      then (do try_merge; s ← get; pure (leb c.max_metric_calls s.metric_calls))
      else pure false

  unfoldable pub follow_proposal : Record → Proposed F T → Action F T Bool
  follow_proposal parent stop = pure true
  follow_proposal parent (attempt a) = evaluate_proposal parent a >>= after_proposal

  -- `runIteration`: true stops the loop.
  unfoldable pub run_iteration : Action F T Bool
  run_iteration = do
    modify (λ s. record s { iterations = s.iterations + 1 })
    s ← get
    let (parent, rng) = E.select_candidate s (rng_for_iteration F T E c.seed s.iterations)
    proposed ← propose_for_iteration F T c E parent rng
    follow_proposal parent proposed

  -- The loop of `Run`, on fuel: `none` is a loop that has not ended.
  unfoldable pub run_loop : ℕ → St F T → Option (Out T.Error (Unit {0}) × St F T)
  run_loop zero st = none
  run_loop (suc fuel) st =
      if ltb st.state.metric_calls c.max_metric_calls
      then (let (r, st') = run_iteration st in
          elim r [
            | err e ↦ some (err e, st')
            | ok stopped ↦ elim stopped [ true ↦ some (ok tt, st') | false ↦ run_loop fuel st' ]
          ])
      else some (ok tt, st)

  -- The state that `initializeState` begins with, of this run ID.
  unfoldable pub new_state : String → OptimizationState F T
  new_state run_id = record {
    run_id = run_id;
    config_fingerprint = E.config_fingerprint c (validation_set F T c);
    iterations = 0;
    metric_calls = 0;
    candidates = [];
    best_candidate_id = "";
    frontier_ids = [];
    proposal_records = [];
    lessons = [];
    ledger = record no_ledger { runs = pos 1 };
    spans = [];
  }

  -- `initializeState`. The state that it makes has no metric calls, so the calls that the code sets are
  -- added by `evaluate`.
  unfoldable pub initialize_state : Action F T (Unit {0})
  initialize_state = do
    run_id ← outside E.new_id
    modify (λ _. new_state run_id)
    s ← get
    emit F T c E (optimization_started s.run_id)
    val ←
        evaluate F T c E "evaluator.validation" "seed" c.seed_candidate (validation_set F T c) false
    id ← outside E.new_id
    modify (λ t.
        let seeded =
          t.candidates
          ++ record {
            id = id;
            candidate = c.seed_candidate;
            parent_ids = [];
            train_score = F.nought;
            validation_score = average_score F T val;
            scores_by_example = scores_by_example F T val;
            objective_scores_by_example = objective_scores_by_example F T val;
          }
            ∷ [] in
        record t {
          candidates = seeded;
          best_candidate_id = id;
          frontier_ids = compute_frontier F seeded;
        })
    save F T c E

  -- `finishState`
  unfoldable pub finish_state : Action F T (Unit {0})
  finish_state = do
    s ← get
    emit F T c E (optimization_ended s.run_id s.iterations s.best_candidate_id s.frontier_ids)
    save F T c E

  unfoldable pub after_loop : Out T.Error (Unit {0}) → St F T → Out T.Error (Unit {0}) × St F T
  after_loop (err e) st = (err e, st)
  after_loop (ok u) st = finish_state st

  -- `Run`, of a run that is not resumed, on fuel for its loop.
  unfoldable pub run : ℕ → St F T → Option (Out T.Error (Unit {0}) × St F T)
  run fuel st =
      let (r, st1) = initialize_state st in
      let looped = run_loop fuel st1 in
      elim r [
        | err e ↦ some (err e, st1)
        | ok _ ↦ elim looped [ none ↦ none | some (r2, st2) ↦ some (after_loop r2 st2) ]
      ]
