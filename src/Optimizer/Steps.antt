-- ===== src/Optimizer/Steps.antt =====
-- optimizer.go: the methods of `Optimizer`, one by one.
use gepago.Base.{
  ℕ, ◌+◌, ◌-◌, String, Bool, true, false, Option, none, some, List, [], ◌∷◌, ◌++◌, leb, ◌==◌,
  if◌then◌else◌, length,
}
use gepago.Base.Int.{ℤ, pos, ◌+ℤ◌, leb_ℤ}
use gepago.Usage.{Usage, no_usage, add_to_ledger}
use gepago.Floats.{Floats}
use gepago.Frontier.Defs.{CandidateRecord, compute_frontier}
use gepago.Optimizer.Data.{
  Types, Example, EvaluationResult, OptimizationEvent, iteration_start, candidate_proposed,
  candidate_accepted, candidate_rejected, frontier_updated, Span, OptimizationState,
  OptimizationConfig, Reporter, Env, Candidate,
}
use gepago.Optimizer.Scores.{
  append_bounded_lesson, lesson_from_proposal, validate_result, sample_batch, merge_candidate,
}
use gepago.Optimizer.Select.{best_record}
use gepago.Optimizer.Monad.{Action, pure, ◌>>=◌, ◌>>◌, get, modify, outside, check}

module _ (F : Floats) (T : Types) where
  -- `proposalAttempt`
  pub record Attempt : Type 0 where
    pub candidate : Candidate
    pub before : EvaluationResult F T
    pub batch : List (Example F T)
    pub components : List String
    pub metadata : List T.Metadata

  -- What `proposeForIteration` returns where it does not fail: stop, or an attempt.
  pub data Proposed : Type 0 where
    stop : Proposed
    attempt : Attempt → Proposed

  -- A span, put on the list.
  abbrev pub add_span : Span F T → OptimizationState F T → OptimizationState F T
  add_span span s = record s { spans = s.spans ++ span ∷ [] }

  abbrev pub add_usage_span : Usage → Span F T → OptimizationState F T → OptimizationState F T
  add_usage_span usage span s = record s {
    ledger = add_to_ledger s.ledger usage;
    spans = s.spans ++ span ∷ [];
  }

  -- `state.MetricCalls += n; state.Ledger.MetricCalls = state.MetricCalls`
  abbrev pub count_metric_calls : ℕ → OptimizationState F T → OptimizationState F T
  count_metric_calls n s =
      let m = s.metric_calls + n in
      record s { metric_calls = m; ledger = record (s.ledger) { metric_calls = pos m } }

module _ (F : Floats) (T : Types) (c : OptimizationConfig F T) (E : Env F T) where
  -- `emit`: the observers, and then persistence.
  unfoldable pub emit : OptimizationEvent F T → Action F T (Unit {0})
  emit event = do e ← outside (λ w. E.append_event event (E.observe event w)); check e

  -- `save`
  unfoldable pub save : Action F T (Unit {0})
  save = do s ← get; e ← outside (E.save_state s); check e

  -- One call of the evaluator, as `evaluateBeforeProposal`, `evaluateAfterProposal` and
  -- `evaluateValidation` make it: its usage is kept whether or not it fails.
  unfoldable pub evaluate :
      String → String → Candidate → List (Example F T) → Bool → Action F T (EvaluationResult F T)
  evaluate kind name candidate batch capture = do
    (r, e) ← outside (λ w. let (r, e, w') = E.evaluate candidate batch capture w in ((r, e), w'))
    s ← get
    modify (
        add_usage_span F T r.usage
          (record { trace_id = s.run_id; kind = kind; name = name; usage = r.usage; err = e }))
    check e
    check (validate_result F T E r (length batch))
    modify (count_metric_calls F T (length batch))
    pure r

  -- The counts that `recordProposerUsage` adds: calls, and usage.
  abbrev reported_calls : Reporter F T → T.World → ℤ
  reported_calls r w = elim r.last_model_calls [
    | some calls ↦ calls w
    | none ↦ elim r.last_usage [ some _ ↦ pos 1 | none ↦ pos 0 ]
  ]

  abbrev reported_usage : Reporter F T → T.World → Usage
  reported_usage r w = elim r.last_usage [ some usage ↦ usage w | none ↦ no_usage ]

  abbrev add_proposer_usage :
      ℤ → Usage → String → String → Option T.Error → OptimizationState F T → OptimizationState F T
  add_proposer_usage calls usage kind name e s =
      if leb_ℤ calls (pos 0)
      then s
      else let l = add_to_ledger s.ledger usage in
        add_span F T
          (record { trace_id = s.run_id; kind = kind; name = name; usage = usage; err = e })
          (record s { ledger = record l { model_calls = l.model_calls +ℤ calls } })

  -- `recordProposerUsage`
  unfoldable pub record_proposer_usage :
      Reporter F T → String → String → Option T.Error → Action F T (Unit {0})
  record_proposer_usage reporter kind name e = do
    calls ← outside (λ w. (reported_calls reporter w, w))
    usage ← outside (λ w. (reported_usage reporter w, w))
    modify (add_proposer_usage calls usage kind name e)

  -- The proposal itself, in `proposeForIteration`.
  unfoldable pub propose :
      CandidateRecord F → EvaluationResult F T → List String → Action F T Candidate
  propose parent before components = do
    s ← get
    (proposed, e) ← outside (λ w.
        let (p, e, w') =
          E.propose parent.candidate (E.build_dataset parent.candidate before components) components
            (E.set_lessons s.lessons w) in
        ((p, e), w'))
    record_proposer_usage E.proposer "llm.reflect" "proposer" e
    check e
    pure (merge_candidate F T E parent.candidate proposed)

  -- The part of `proposeForIteration` after its batch is sampled.
  unfoldable pub propose_on : CandidateRecord F → List (Example F T) → Action F T (Proposed F T)
  propose_on parent batch = do
    before ← evaluate "evaluator.train" parent.id parent.candidate batch true
    s ← get
    let components = E.select_components s parent c.components
    proposed ← propose parent before components
    emit (candidate_proposed s.run_id s.iterations parent.id)
    metadata ← outside (λ w. (E.proposal_metadata w, w))
    s' ← get
    pure (
        if leb c.max_metric_calls s'.metric_calls
        then stop
        else attempt (record {
          candidate = proposed;
          before = before;
          batch = batch;
          components = components;
          metadata = metadata;
        }))

  -- `proposeForIteration`
  unfoldable pub propose_for_iteration : CandidateRecord F → T.Rng → Action F T (Proposed F T)
  propose_for_iteration parent rng = do
    s ← get
    emit (iteration_start s.run_id s.iterations parent.id)
    s' ← get
    let batch =
        sample_batch F T E c.trainset c.minibatch_size (c.max_metric_calls - s'.metric_calls) rng
    if length batch == 0 then pure stop else propose_on parent batch

  -- The record of a proposal, and its lesson.
  unfoldable pub record_proposal :
      Bool → CandidateRecord F → Attempt F T → F.Num → F.Num → Action F T (Unit {0})
  record_proposal accepted parent a before after = do
    id ← outside E.new_id
    modify (λ s. record s {
      proposal_records =
          s.proposal_records
          ++ record {
            id = id;
            iteration = s.iterations;
            parent_ids = parent.id ∷ [];
            components = a.components;
            metadata = a.metadata;
            minibatch_before_sum = before;
            minibatch_after_sum = after;
            accepted = accepted;
          }
            ∷ [];
      lessons =
          append_bounded_lesson s.lessons
            (lesson_from_proposal F T E accepted a.components before after);
    })

  -- `rejectCandidate`
  unfoldable pub reject_candidate :
      CandidateRecord F → Attempt F T → F.Num → F.Num → Action F T (Unit {0})
  reject_candidate parent a before after = do
    record_proposal false parent a before after
    s ← get
    emit (candidate_rejected s.run_id s.iterations parent.id before after)
    save

  -- The best candidate and the frontier after a record is appended, as `acceptCandidate` and
  -- `tryMerge` set them.
  unfoldable pub add_candidate : CandidateRecord F → OptimizationState F T → OptimizationState F T
  add_candidate r s =
      let t = record s { candidates = s.candidates ++ r ∷ [] } in
      let better : Bool = elim (best_record F T t) [
        | none ↦ false
        | some b ↦ F.lt b.validation_score r.validation_score
      ] in
      record t {
        best_candidate_id = if better then r.id else t.best_candidate_id;
        frontier_ids = compute_frontier F t.candidates;
      }

  -- `emitAcceptedCandidateEvents`
  unfoldable pub emit_accepted : String → String → F.Num → F.Num → Action F T (Unit {0})
  emit_accepted parent_id candidate_id before after = do
    s ← get
    emit (candidate_accepted s.run_id s.iterations candidate_id parent_id before after)
    emit (frontier_updated s.run_id s.iterations s.frontier_ids)
    save
