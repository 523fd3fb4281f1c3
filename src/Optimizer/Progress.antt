-- ===== src/Optimizer/Progress.antt =====
-- The methods of one iteration of optimizer.go, up to `runIteration`.
use gepago.Base.{
  ℕ, suc, ◌+◌, ◌-◌, ◌≤◌, ◌≡◌, String, Bool, true, false, ◌&&◌, Option, none, some, List, arith,
  length, leb, ◌==◌,
}
use gepago.Floats.{Floats}
use gepago.Frontier.Defs.{CandidateRecord}
use gepago.Optimizer.Data.{
  Types, Example, EvaluationResult, OptimizationState, OptimizationConfig, Env, Candidate,
}
use gepago.Optimizer.Scores.{
  rng_for_iteration, sample_exact, sample_batch, validation_set, score_for_examples, sum_score,
  average_score,
}
use gepago.Optimizer.Monad.{St, pure, ◌>>=◌}
use gepago.Optimizer.Steps.{
  Attempt, Proposed, stop, attempt, evaluate, propose_on, propose_for_iteration,
}
use gepago.Optimizer.Loop.{
  accept_within, accept_candidate, evaluate_within, evaluate_proposal, merged_record,
  evaluate_merged, evaluate_merge, keep_merged, merge_pair, try_merge, after_proposal, can_merge,
}
use gepago.Optimizer.Keeps.{
  Ends, Keeps, bind-Ends, then-Ends, get-Ends, outside-Ends, modify-Ends, check-Ends, pure-Ends,
  if-Ends, weaken-Ends,
}
use gepago.Optimizer.Invariant.{
  Inv, emit-Keeps, save-Keeps, record_proposer_usage-Keeps, record_proposal-Keeps,
  add_candidate-Inv, reject_candidate-Keeps, emit_accepted-Keeps,
}
use gepago.Optimizer.Counts.{
  length-sample_exact, length-sample_batch, Inv-lower, fits, evaluate-Ends, propose-Keeps,
}

module _ (F : Floats) (T : Types) (c : OptimizationConfig F T) (E : Env F T) where
  abbrev I : ℕ → OptimizationState F T → Type 0
  I = Inv F T c

  -- A proposal has cost an evaluation; stopping need not have.
  abbrev pub After : ℕ → Proposed F T → OptimizationState F T → Type 0
  After k stop s = I k s
  After k (attempt a) s = I (suc k) s

  raised-After : {k : ℕ} {s : OptimizationState F T} (p : Proposed F T) → I (suc k) s → After k p s
  raised-After {k} stop i = Inv-lower F T c k (suc k) (omega arith) i
  raised-After (attempt a) i = i

  propose_on-Ends :
      {k : ℕ} {st : St F T} (parent : CandidateRecord F) (batch : List (Example F T))
      → (length batch == 0) ≡ false
      → st.state.metric_calls + length batch ≤ c.max_metric_calls
      → I k st.state
      → Ends (I k) (After k) (propose_on F T c E parent batch) st
  unfolding propose_on
  propose_on-Ends {k} parent batch h room i =
      bind-Ends (evaluate-Ends F T c E k _ _ _ batch _ room i) (λ before st1 i1.
        weaken-Ends {Y = I (suc k)} {R = λ p s. I (suc k) s}
          (λ s. Inv-lower F T c k (suc k) (omega arith)) (λ p s. raised-After p)
          (get-Ends _ (
            bind-Ends
              (propose-Keeps F T c E (suc k) parent before _ st1
                (Inv-lower F T c (suc k) (k + length batch) (ground (arith, h)) i1))
              (λ proposed st2 i2.
                then-Ends (emit-Keeps F T c E (suc k) _ st2 i2)
                  (λ _ st3 i3. outside-Ends _ _ (λ metadata w. get-Ends _ (pure-Ends _ i3)))))))

  pub propose_for_iteration-Ends :
      {k : ℕ} (parent : CandidateRecord F) (rng : T.Rng) (st : St F T)
      → I k st.state
      → Ends (I k) (After k) (propose_for_iteration F T c E parent rng) st
  unfolding propose_for_iteration
  propose_for_iteration-Ends {k} parent rng st i = get-Ends _ (
      then-Ends (emit-Keeps F T c E k _ st i) (λ _ st1 i1. get-Ends _ (
        let left = c.max_metric_calls - st1.state.metric_calls in
        let batch = sample_batch F T E c.trainset c.minibatch_size left rng in
        if-Ends (length batch == 0) (λ _. pure-Ends stop i1)
          (λ h.
            propose_on-Ends parent batch h
              (fits F T c _ (length-sample_batch F T E c.trainset c.minibatch_size left rng) i1)
              i1))))

  module _ (k : ℕ) where
    -- An evaluation of a sample of what is left.
    evaluate_left-Ends :
        {st : St F T} (kind name : String) (candidate : Candidate) (es : List (Example F T))
        (rng : T.Rng)
        → I k st.state
        → Ends
            (I k)
            (λ _. I k)
            (evaluate F T c E kind name candidate
              (sample_exact F T E es (c.max_metric_calls - st.state.metric_calls) rng)
              false)
            st
    evaluate_left-Ends {st} kind name candidate es rng i =
        let batch = sample_exact F T E es (c.max_metric_calls - st.state.metric_calls) rng in
        weaken-Ends {Y = I k} {R = λ r. I (k + length batch)} (λ s j. j)
          (λ r s. Inv-lower F T c k (k + length batch) (omega arith))
          (evaluate-Ends F T c E k _ _ _ batch _
            (fits F T c _
              (length-sample_exact F T E es (c.max_metric_calls - st.state.metric_calls) rng) i)
            i)

    accept_within-Keeps :
        (parent : CandidateRecord F) (a : Attempt F T) (after : EvaluationResult F T) (x y : F.Num)
        → Keeps (I k) (accept_within F T c E parent a after x y)
    unfolding accept_within
    accept_within-Keeps parent a after x y st i = get-Ends _ (
        bind-Ends (evaluate_left-Ends _ _ _ _ _ i) (λ val st1 i1. outside-Ends _ _ (λ id w.
          then-Ends (record_proposal-Keeps F T c E k true parent a x y _ i1) (λ _ st2 i2.
            modify-Ends _ _ (
              emit_accepted-Keeps F T c E k parent.id id x y _
                (add_candidate-Inv F T c E k _ _ i2))))))

    accept_candidate-Keeps :
        (parent : CandidateRecord F) (a : Attempt F T) (after : EvaluationResult F T) (x y : F.Num)
        → Keeps (I k) (accept_candidate F T c E parent a after x y)
    unfolding accept_candidate
    accept_candidate-Keeps parent a after x y st i = get-Ends _ (
        if-Ends (leb c.max_metric_calls st.state.metric_calls) (λ _. pure-Ends tt i)
          (λ _. accept_within-Keeps parent a after x y st i))

    evaluate_within-Keeps :
        (parent : CandidateRecord F) (a : Attempt F T)
        → Keeps (I k) (evaluate_within F T c E parent a)
    unfolding evaluate_within
    evaluate_within-Keeps parent a st i = get-Ends _ (
        bind-Ends (evaluate_left-Ends _ _ _ _ _ i) (λ after st1 i1.
          if-Ends
            (E.should_accept
              (score_for_examples F T a.before (
                sample_exact F T E a.batch (c.max_metric_calls - st.state.metric_calls)
                  (rng_for_iteration F T E c.seed st.state.iterations)))
              (sum_score F T after))
            (λ _.
              then-Ends (accept_candidate-Keeps parent a after _ _ st1 i1)
                (λ _ st2 i2. pure-Ends true i2))
            (λ _.
              then-Ends (reject_candidate-Keeps F T c E k parent a _ _ st1 i1)
                (λ _ st2 i2. pure-Ends false i2))))

    pub evaluate_proposal-Keeps :
        (parent : CandidateRecord F) (a : Attempt F T)
        → Keeps (I k) (evaluate_proposal F T c E parent a)
    unfolding evaluate_proposal
    evaluate_proposal-Keeps parent a st i = get-Ends _ (
        if-Ends (leb c.max_metric_calls st.state.metric_calls) (λ _. pure-Ends false i)
          (λ _. evaluate_within-Keeps parent a st i))

    merged_record-Keeps :
        (left right : CandidateRecord F) (merged : Candidate) (val : EvaluationResult F T)
        → Keeps (I k) (merged_record F T c E left right merged val)
    unfolding merged_record
    merged_record-Keeps left right merged val st i = outside-Ends _ _ (λ id w. pure-Ends _ i)

    evaluate_merge-Keeps :
        (propose : CandidateRecord F
          → CandidateRecord F
          → List String
          → T.World
          → Candidate × Option T.Error × T.World)
        (left right : CandidateRecord F)
        → Keeps (I k) (evaluate_merge F T c E propose left right)
    unfolding evaluate_merge evaluate_merged
    evaluate_merge-Keeps propose left right st i = outside-Ends _ _ (λ pe w.
        then-Ends (record_proposer_usage-Keeps F T c E k _ _ _ _ _ i) (λ _ st1 i1.
          check-Ends _ _ i1 (
            get-Ends _ (
              if-Ends
                (length (
                    sample_exact F T E (validation_set F T c)
                      (c.max_metric_calls - st1.state.metric_calls)
                      (rng_for_iteration F T E c.seed st1.state.iterations))
                  == 0)
                (λ _. pure-Ends none i1)
                (λ _. bind-Ends (evaluate_left-Ends _ _ _ _ _ i1) (λ val st2 i2.
                  if-Ends
                    (F.lt (average_score F T val) left.validation_score
                      && F.lt (average_score F T val) right.validation_score)
                    (λ _. pure-Ends none i2)
                    (λ _. merged_record-Keeps left right _ val st2 i2)))))))

    keep_merged-Keeps : (r : Option (CandidateRecord F)) → Keeps (I k) (keep_merged F T c E r)
    unfolding keep_merged
    keep_merged-Keeps none st i = pure-Ends tt i
    keep_merged-Keeps (some r) st i =
        modify-Ends _ _ (save-Keeps F T c E k _ (add_candidate-Inv F T c E k r _ i))

    merge_pair-Keeps :
        (p : Option (CandidateRecord F × CandidateRecord F)) → Keeps (I k) (merge_pair F T c E p)
    unfolding merge_pair
    merge_pair-Keeps none st i = pure-Ends tt i
    merge_pair-Keeps (some (left, right)) st i = go E.propose_merge
      where
        go :
            (m : Option (
              CandidateRecord F
              → CandidateRecord F
              → List String
              → T.World
              → Candidate × Option T.Error × T.World))
            → Ends
                (I k)
                (λ _. I k)
                (elim m [
                  | none ↦ pure tt
                  | some propose ↦ evaluate_merge F T c E propose left right >>= keep_merged F T c E
                ])
                st
        go none = pure-Ends tt i
        go (some propose) =
            bind-Ends (evaluate_merge-Keeps propose left right st i)
              (λ r st1 i1. keep_merged-Keeps r st1 i1)

    try_merge-Keeps : Keeps (I k) (try_merge F T c E)
    unfolding try_merge
    try_merge-Keeps st i =
        get-Ends _ (
          if-Ends (can_merge F T c E st.state) (λ _. merge_pair-Keeps _ st i) (λ _. pure-Ends tt i))

    pub after_proposal-Keeps : (accepted : Bool) → Keeps (I k) (after_proposal F T c E accepted)
    unfolding after_proposal
    after_proposal-Keeps accepted st i =
        if-Ends accepted
          (λ _. then-Ends (try_merge-Keeps st i) (λ _ st1 i1. get-Ends _ (pure-Ends _ i1)))
          (λ _. pure-Ends false i)
