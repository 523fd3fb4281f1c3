-- ===== src/Optimizer/Counts.antt =====
-- `sampleExact` and the evaluations of optimizer.go, and the count of metric calls.
use gepago.Base.{
  ℕ, zero, suc, ◌+◌, ◌-◌, ◌≤◌, refl, String, Bool, List, [], ◌∷◌, arith, length, take,
}
use gepago.Usage.{Usage, add_to_ledger}
use gepago.Floats.{Floats}
use gepago.Optimizer.Data.{
  Types, Example, Span, OptimizationState, OptimizationConfig, Env, Candidate,
}
use gepago.Optimizer.Scores.{pick, sample_exact, sample_batch}
use gepago.Optimizer.Monad.{St}
use gepago.Optimizer.Steps.{evaluate, count_metric_calls, add_usage_span, propose}
use gepago.Optimizer.Keeps.{
  Ends, Keeps, then-Ends, get-Ends, outside-Ends, modify-Ends, check-Ends, pure-Ends,
}
use gepago.Optimizer.Invariant.{Inv, record_proposer_usage-Keeps}
use gepago.Frontier.Defs.{CandidateRecord}
use gepago.Optimizer.Data.{EvaluationResult}

length-take : {A : Type 0} (n : ℕ) (xs : List A) → length (take n xs) ≤ n
length-take zero xs = omega arith
length-take (suc n) [] = omega arith
length-take (suc n) (x ∷ xs) = omega (arith, length-take n xs)

module _ (F : Floats) (T : Types) where
  length-pick : (es : List (Example F T)) (is : List ℕ) → length (pick F T es is) ≤ length is
  unfolding pick
  length-pick es [] = omega arith
  length-pick es (i ∷ is) = ground (arith, length-pick es is)

  pub length-sample_exact :
      (E : Env F T) (es : List (Example F T)) (n : ℕ) (rng : T.Rng)
      → length (sample_exact F T E es n rng) ≤ n
  unfolding sample_exact
  length-sample_exact E es n rng =
      let is = (E.perm (length es) rng).0 in
      ground (arith, length-pick es (take n is), length-take n is)

  pub length-sample_batch :
      (E : Env F T) (es : List (Example F T)) (n left : ℕ) (rng : T.Rng)
      → length (sample_batch F T E es n left rng) ≤ left
  unfolding sample_batch
  length-sample_batch E es n left rng =
      ground (arith, length-sample_exact E es n rng, length-sample_exact E es left rng)

module _ (F : Floats) (T : Types) (c : OptimizationConfig F T) where
  pub Inv-lower : (j k : ℕ) {s : OptimizationState F T} → j ≤ k → Inv F T c k s → Inv F T c j s
  Inv-lower j k h i = record {
    grown = omega (arith, h, i.grown);
    bounded = i.bounded;
    counted = i.counted;
    front = i.front;
    best = i.best;
    taught = i.taught;
  }

  pub count_metric_calls-Inv :
      (n k : ℕ) (s : OptimizationState F T)
      → s.metric_calls + n ≤ c.max_metric_calls
      → Inv F T c k s
      → Inv F T c (k + n) (count_metric_calls F T n s)
  count_metric_calls-Inv n k s h i = record {
    grown = omega (arith, i.grown);
    bounded = h;
    counted = refl;
    front = i.front;
    best = i.best;
    taught = i.taught;
  }

  -- What is left is enough for a batch of that size.
  pub fits :
      {k : ℕ} {s : OptimizationState F T} (n : ℕ)
      → n ≤ c.max_metric_calls - s.metric_calls
      → Inv F T c k s
      → s.metric_calls + n ≤ c.max_metric_calls
  fits {k} {s} n h i = omega (arith, h, i.bounded)

  -- Usage and a span are not counted.
  pub respan :
      {k : ℕ} (u : Usage) (p : Span F T) {s : OptimizationState F T}
      → Inv F T c k s
      → Inv F T c k (add_usage_span F T u p s)
  unfolding add_to_ledger
  respan u p i = record {
    grown = i.grown;
    bounded = i.bounded;
    counted = i.counted;
    front = i.front;
    best = i.best;
    taught = i.taught;
  }

  module _ (E : Env F T) (k : ℕ) where
    pub evaluate-Ends :
        {st : St F T} (kind name : String) (candidate : Candidate) (batch : List (Example F T))
        (capture : Bool)
        → st.state.metric_calls + length batch ≤ c.max_metric_calls
        → Inv F T c k st.state
        → Ends
            (Inv F T c k)
            (λ _. Inv F T c (k + length batch))
            (evaluate F T c E kind name candidate batch capture)
            st
    unfolding evaluate
    evaluate-Ends {st} kind name candidate batch capture h i = outside-Ends _ _ (λ re w.
        get-Ends _ (
          modify-Ends _ _ (
            check-Ends _ _ (respan re.0.usage _ i) (
              check-Ends _ _ (respan re.0.usage _ i) (
                modify-Ends _ _ (
                  pure-Ends _
                    (count_metric_calls-Inv (length batch) k _ h (respan re.0.usage _ i))))))))

    pub propose-Keeps :
        (parent : CandidateRecord F) (before : EvaluationResult F T) (components : List String)
        → Keeps (Inv F T c k) (propose F T c E parent before components)
    unfolding propose
    propose-Keeps parent before components st i = get-Ends _ (
        outside-Ends _ _ (λ pe w.
          then-Ends (record_proposer_usage-Keeps F T c E k _ _ _ _ _ i)
            (λ _ st' i'. check-Ends _ _ i' (pure-Ends _ i'))))
