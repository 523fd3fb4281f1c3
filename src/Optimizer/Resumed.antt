-- ===== src/Optimizer/Resumed.antt =====
-- optimizer.go: `Run` of a run that goes on from a state that was saved.
use gepago.Base.{
  ℕ, ◌≤◌, ◌<◌, ◌≡◌, refl, sym, ap, subst, ◌∙◌, true, Option, none, some, List, [], ◌∷◌, arith,
  length,
}
use gepago.Base.Int.{pos, ◌≤ℤ◌}
use gepago.Usage.{UsageLedger}
use gepago.Floats.{Floats}
use gepago.Frontier.Defs.{CandidateRecord, compute_frontier}
use gepago.Frontier.Keys.{has}
use gepago.Optimizer.Data.{Types, OptimizationConfig, OptimizationState, Env}
use gepago.Optimizer.Monad.{St, Out, ok, err}
use gepago.Optimizer.Loop.{run_loop, after_loop}
use gepago.Optimizer.Invariant.{Inv, record_ids}
use gepago.Optimizer.Counts.{Inv-lower}
use gepago.Optimizer.Run.{run_loop-ends}
use gepago.Optimizer.Whole.{finished, after_loop-Inv}
use gepago.Optimizer.Saved.{
  SavedState, ids_of, Loaded, loaded, ResumeErrors, start_loaded, start_state, run_from_start,
}
use gepago.Optimizer.Valid.{ValidState}
use gepago.Optimizer.Started.{IsEmpty, Carries, SameConfig, start_loaded-resumes_iff}

ids-same : {F : Floats} (rs : List (CandidateRecord F)) → ids_of rs ≡ record_ids rs
ids-same [] = refl
ids-same (r ∷ rs) = ap (λ ks. r.id ∷ ks) (ids-same rs)

module _ (F : Floats) (T : Types) (c : OptimizationConfig F T) (E : Env F T)
    (R : ResumeErrors F T c E) where
  -- What a run of this configuration promises of the state that it has saved.
  pub record SavedInv (s : SavedState F T) : Type 0 where
    pub bounded : s.metric_calls ≤ℤ pos c.max_metric_calls
    pub counted : s.ledger.metric_calls ≡ s.metric_calls
    pub front : s.frontier_ids ≡ compute_frontier F s.candidates
    pub taught : length s.lessons ≤ 25

  -- What is saved of a state within the invariant keeps that promise.
  pub Inv-SavedInv :
      (s : SavedState F T) (t : OptimizationState F T) (k : ℕ)
      → Carries F T s t
      → Inv F T c k t
      → SavedInv s
  Inv-SavedInv s t k h i = record {
    bounded = subst (λ a. a ≤ℤ pos c.max_metric_calls) h.counts.1 (omega (arith, i.bounded));
    counted = ap (λ (l : UsageLedger). l.metric_calls) (sym h.kept.1) ∙ i.counted ∙ h.counts.1;
    front = sym h.chosen.1 ∙ i.front ∙ ap (compute_frontier F) h.records.0;
    taught = subst (λ ls. length ls ≤ 25) h.kept.0 i.taught;
  }

  Carries-Inv :
      (s : SavedState F T) (t : OptimizationState F T)
      → Carries F T s t
      → ValidState F T E s
      → SavedInv s
      → Inv F T c t.metric_calls t
  Carries-Inv s t h v i = record {
    grown = omega arith;
    bounded =
        let le : pos t.metric_calls ≤ℤ pos c.max_metric_calls =
          subst (λ a. a ≤ℤ pos c.max_metric_calls) (sym h.counts.1) i.bounded in
        omega (arith, le);
    counted = ap (λ (l : UsageLedger). l.metric_calls) h.kept.1 ∙ i.counted ∙ sym h.counts.1;
    front = h.chosen.1 ∙ i.front ∙ ap (compute_frontier F) (sym h.records.0);
    best =
        subst (λ rs. has t.best_candidate_id (record_ids rs) ≡ true) (sym h.records.0)
          (subst (λ k. has k (record_ids s.candidates) ≡ true) (sym h.chosen.0)
            (subst (λ ks. has s.best_candidate_id ks ≡ true) (ids-same s.candidates) v.best.1));
    taught = subst (λ ls. length ls ≤ 25) (sym h.kept.0) i.taught;
  }

  -- The run has ended, within the invariant, and counts no fewer metric calls than the state from
  -- which it went on.
  abbrev pub EndsGrown : SavedState F T → Option (Out T.Error (Unit {0}) × St F T) → Type 0
  EndsGrown s r =
      (e : Out T.Error (Unit {0}) × St F T) × (r ≡ some e)
      × (s.metric_calls ≤ℤ pos e.1.state.metric_calls)
      × Inv F T c 0 e.1.state

  -- A run that resumes from a state that is not empty, is valid and was saved by a run of this
  -- configuration ends, on any fuel above `MaxMetricCalls`. Whatever fails, it counts the metric
  -- calls of the saved state and no more in all than `MaxMetricCalls`, as its ledger does, its
  -- frontier is that of its candidates, its best candidate one of them, and its lessons few.
  pub run_from_start-ends :
      (load : T.World → Loaded F T × T.World) (s : SavedState F T) (fuel : ℕ) (st : St F T)
      → (load st.world).0 ≡ loaded s
      → ¬ IsEmpty F T s
      → ValidState F T E s
      → SameConfig F T c E s
      → SavedInv s
      → c.max_metric_calls < fuel
      → EndsGrown s (run_from_start F T c E R true (some load) fuel st)
  unfolding run_from_start start_state
  run_from_start-ends load s fuel st loads full valid same saved enough =
      let at = record st { world = (load st.world).1 } in
      subst
        (λ (l : Loaded F T).
          let (r, st1) = start_loaded F T c E R l at in
          EndsGrown s (elim r [
            | err e ↦ some (err e, st1)
            | ok _ ↦ elim (run_loop F T c E fuel st1) [
              | none ↦ none
              | some (r2, st2) ↦ some (after_loop F T c E r2 st2)
            ]
          ]))
        (sym loads)
        (go (start_loaded F T c E R (loaded s) at)
          ((start_loaded-resumes_iff F T c E R s at full).1 (valid, same)))
    where
      go :
          (r : Out T.Error (Unit {0}) × St F T)
          → (r.0 ≡ ok tt) × Carries F T s r.1.state
          → EndsGrown s (elim r.0 [
            | err e ↦ some (err e, r.1)
            | ok _ ↦ elim (run_loop F T c E fuel r.1) [
              | none ↦ none
              | some (r2, st2) ↦ some (after_loop F T c E r2 st2)
            ]
          ])
      go (err e, st1) h = absurd (cc (h.0))
      go (ok u, st1) h =
          let k = st1.state.metric_calls in
          let (e, ended, j) =
            run_loop-ends F T c E fuel st1 k (Carries-Inv s st1.state h.1 valid saved)
              (omega (arith, enough)) in
          let i = after_loop-Inv F T c E k e j in
          (
            after_loop F T c E e.0 e.1,
            ap (finished F T c E) ended,
            subst (λ a. a ≤ℤ pos (after_loop F T c E e.0 e.1).1.state.metric_calls) h.1.counts.1
                (omega (arith, i.grown)),
            Inv-lower F T c 0 k (omega arith) i,
          )
