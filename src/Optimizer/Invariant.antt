-- ===== src/Optimizer/Invariant.antt =====
-- The invariant of an `OptimizationState`, and the methods of optimizer.go that count no metric
-- calls.
use gepago.Base.{
  ℕ, ◌-◌, ◌≤◌, ◌≡◌, refl, String, Bool, true, false, Option, List, [], ◌∷◌, ◌++◌, arith, str_eq_iff,
  if-rel, length, length-drop, drop, ltb,
}
use gepago.Base.Int.{pos, leb_ℤ}
use gepago.Usage.{add_to_ledger}
use gepago.Floats.{Floats}
use gepago.Frontier.Defs.{CandidateRecord, compute_frontier}
use gepago.Frontier.Keys.{has}
use gepago.Optimizer.Data.{
  Types, OptimizationEvent, OptimizationState, OptimizationConfig, Reporter, Env,
}
use gepago.Optimizer.Scores.{append_bounded_lesson}
use gepago.Optimizer.Steps.{
  Attempt, emit, save, record_proposer_usage, record_proposal, add_candidate, reject_candidate,
  emit_accepted,
}
use gepago.Optimizer.Keeps.{Keeps, then-Ends, get-Ends, outside-Ends, check-Keeps, assign-Ends}

abbrev pub record_ids : {F : Floats} → List (CandidateRecord F) → List String
record_ids [] = []
record_ids (r ∷ rs) = r.id ∷ record_ids rs

pub append_bounded_lesson-le :
    (lessons : List String) (lesson : String) → length (append_bounded_lesson lessons lesson) ≤ 25
unfolding append_bounded_lesson
append_bounded_lesson-le lessons lesson =
    let longer = lessons ++ lesson ∷ [] in
    if-rel (λ ls. length ls ≤ 25) (ltb 25 (length longer)) (drop (length longer - 25) longer) longer
      (λ _. omega (arith, length-drop (length longer - 25) longer)) (λ h. ground arith)

module _ (F : Floats) (T : Types) (c : OptimizationConfig F T) (k : ℕ) where
  pub record Inv (s : OptimizationState F T) : Type 0 where
    pub grown : k ≤ s.metric_calls
    pub bounded : s.metric_calls ≤ c.max_metric_calls
    pub counted : s.ledger.metric_calls ≡ pos s.metric_calls
    pub front : s.frontier_ids ≡ compute_frontier F s.candidates
    pub best : has s.best_candidate_id (record_ids s.candidates) ≡ true
    pub taught : length s.lessons ≤ 25

pub has-append_left :
    {F : Floats} (j : String) (rs : List (CandidateRecord F)) (r : CandidateRecord F)
    → has j (record_ids rs) ≡ true
    → has j (record_ids (rs ++ r ∷ [])) ≡ true
has-append_left j [] r h = cc
has-append_left j (q ∷ rs) r h = ground (arith, has-append_left j rs r)

pub has-append_last :
    {F : Floats} (rs : List (CandidateRecord F)) (r : CandidateRecord F)
    → has r.id (record_ids (rs ++ r ∷ [])) ≡ true
has-append_last [] r = ground (arith, str_eq_iff r.id r.id)
has-append_last (q ∷ rs) r = ground (arith, has-append_last rs r)

module _ (F : Floats) (T : Types) (c : OptimizationConfig F T) (E : Env F T) (k : ℕ) where
  abbrev I : OptimizationState F T → Type 0
  I = Inv F T c k

  pub emit-Keeps : (event : OptimizationEvent F T) → Keeps I (emit F T c E event)
  unfolding emit
  emit-Keeps event st i = outside-Ends _ _ (λ e w. check-Keeps e _ i)

  pub save-Keeps : Keeps I (save F T c E)
  unfolding save
  save-Keeps st i = get-Ends _ (outside-Ends _ _ (λ e w. check-Keeps e _ i))

  pub record_proposer_usage-Keeps :
      (r : Reporter F T) (kind name : String) (e : Option T.Error)
      → Keeps I (record_proposer_usage F T c E r kind name e)
  unfolding record_proposer_usage add_to_ledger
  record_proposer_usage-Keeps r kind name e st i = outside-Ends _ _ (λ calls w.
      outside-Ends _ _ (λ usage w'. assign-Ends _ (
        if-rel I (leb_ℤ calls (pos 0)) _ _ (λ _. i)
          (λ _. record {
            grown = i.grown;
            bounded = i.bounded;
            counted = i.counted;
            front = i.front;
            best = i.best;
            taught = i.taught;
          }))))

  pub record_proposal-Keeps :
      (accepted : Bool) (parent : CandidateRecord F) (a : Attempt F T) (before after : F.Num)
      → Keeps I (record_proposal F T c E accepted parent a before after)
  unfolding record_proposal
  record_proposal-Keeps accepted parent a before after st i = outside-Ends _ _ (λ id w.
      assign-Ends _ (record {
        grown = i.grown;
        bounded = i.bounded;
        counted = i.counted;
        front = i.front;
        best = i.best;
        taught = append_bounded_lesson-le st.state.lessons _;
      }))

  pub add_candidate-Inv :
      (r : CandidateRecord F) (s : OptimizationState F T) → I s → I (add_candidate F T c E r s)
  unfolding add_candidate
  add_candidate-Inv r s i = record {
    grown = i.grown;
    bounded = i.bounded;
    counted = i.counted;
    front = refl;
    best =
        if-rel (λ j. has j (record_ids (s.candidates ++ r ∷ [])) ≡ true) _ r.id s.best_candidate_id
          (λ _. has-append_last s.candidates r)
          (λ _. has-append_left s.best_candidate_id s.candidates r i.best);
    taught = i.taught;
  }

  pub reject_candidate-Keeps :
      (parent : CandidateRecord F) (a : Attempt F T) (before after : F.Num)
      → Keeps I (reject_candidate F T c E parent a before after)
  unfolding reject_candidate
  reject_candidate-Keeps parent a before after st i =
      then-Ends (record_proposal-Keeps false parent a before after st i) (λ _ st' i'.
        get-Ends _ (then-Ends (emit-Keeps _ st' i') (λ _ st'' i''. save-Keeps st'' i'')))

  pub emit_accepted-Keeps :
      (parent_id candidate_id : String) (before after : F.Num)
      → Keeps I (emit_accepted F T c E parent_id candidate_id before after)
  unfolding emit_accepted
  emit_accepted-Keeps parent_id candidate_id before after st i = get-Ends _ (
      then-Ends (emit-Keeps _ st i)
        (λ _ st' i'. then-Ends (emit-Keeps _ st' i') (λ _ st'' i''. save-Keeps st'' i'')))
