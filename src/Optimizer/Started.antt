-- ===== src/Optimizer/Started.antt =====
-- optimizer.go and optimizer_state.go: `startState` on a state that was saved.
use gepago.Base.{
  ◌≡◌, ◌↔◌, refl, true, false, Option, none, some, List, [], ◌∷◌, ◌==◌, arith, length, str_eq,
  str_eq_iff, if-rel, if◌then◌else◌,
}
use gepago.Base.Int.{ℤ, pos, negsuc, pos_part, ◌≤ℤ◌, eqb_ℤ}
use gepago.Floats.{Floats}
use gepago.Optimizer.Data.{Types, OptimizationConfig, OptimizationState, Env}
use gepago.Optimizer.Scores.{validation_set}
use gepago.Optimizer.Monad.{St, Out, ok, err}
use gepago.Optimizer.Saved.{
  StateError, SavedState, validate_state, is_missing, resumed, loaded, ResumeErrors, start_loaded,
}
use gepago.Optimizer.Valid.{ValidState, validate_state-none_iff}

pub length-zero_iff {ℓ} : {A : Type ℓ} (xs : List A) → ((length xs == 0) ≡ true) ↔ (xs ≡ [])
length-zero_iff [] = (λ h. refl, λ h. refl)
length-zero_iff (x ∷ xs) = (λ h. ground (arith, h), λ h. cc)

pub eqb_ℤ-zero_iff : (a : ℤ) → (eqb_ℤ a (pos 0) ≡ true) ↔ (a ≡ pos 0)
eqb_ℤ-zero_iff (pos n) = (λ h. ground (arith, h), λ h. ground (arith, h))
eqb_ℤ-zero_iff (negsuc n) = (λ h. ground (arith, h), λ h. cc)

module _ (F : Floats) (T : Types) where
  -- The empty object, by which a persistence may say that there is no state.
  pub record IsEmpty (s : SavedState F T) : Type 0 where
    pub unnamed :
        (s.run_id ≡ "") × (s.started ≡ false) × (s.ended ≡ false) × (s.config_fingerprint ≡ "")
    pub unfilled : (s.candidates ≡ []) × (s.proposal_records ≡ []) × (s.lessons ≡ [])
    pub unchosen : (s.best_candidate_id ≡ "") × (s.frontier_ids ≡ []) × (s.spans ≡ [])
    pub uncounted : (s.metric_calls ≡ pos 0) × (s.iterations ≡ pos 0) × (s.ledger_is_zero ≡ true)

  pub is_missing-true_iff : (s : SavedState F T) → (is_missing F T s ≡ true) ↔ IsEmpty s
  unfolding is_missing
  is_missing-true_iff s = (
    λ h.
        let names : (str_eq s.run_id "" ≡ true)
            × (s.started ≡ false)
            × (s.ended ≡ false)
            × (str_eq s.config_fingerprint "" ≡ true) =
          ground (arith, h) in
        let fills : ((length s.candidates == 0) ≡ true)
            × ((length s.proposal_records == 0) ≡ true)
            × ((length s.lessons == 0) ≡ true) =
          ground (arith, h) in
        let choices : (str_eq s.best_candidate_id "" ≡ true)
            × ((length s.frontier_ids == 0) ≡ true)
            × ((length s.spans == 0) ≡ true) =
          ground (arith, h) in
        let counts : (eqb_ℤ s.metric_calls (pos 0) ≡ true)
            × (eqb_ℤ s.iterations (pos 0) ≡ true)
            × (s.ledger_is_zero ≡ true) =
          ground (arith, h) in
        record {
          unnamed = (
            (str_eq_iff s.run_id "").0 names.0,
            names.1,
            names.2,
            (str_eq_iff s.config_fingerprint "").0 names.3,
          );
          unfilled = (
            (length-zero_iff s.candidates).0 fills.0,
            (length-zero_iff s.proposal_records).0 fills.1,
            (length-zero_iff s.lessons).0 fills.2,
          );
          unchosen = (
            (str_eq_iff s.best_candidate_id "").0 choices.0,
            (length-zero_iff s.frontier_ids).0 choices.1,
            (length-zero_iff s.spans).0 choices.2,
          );
          uncounted = (
            (eqb_ℤ-zero_iff s.metric_calls).0 counts.0,
            (eqb_ℤ-zero_iff s.iterations).0 counts.1,
            counts.2,
          );
        },
    λ e. ground (
      arith,
      (str_eq_iff s.run_id "").1 e.unnamed.0,
      e.unnamed.1,
      e.unnamed.2,
      (str_eq_iff s.config_fingerprint "").1 e.unnamed.3,
      (length-zero_iff s.candidates).1 e.unfilled.0,
      (length-zero_iff s.proposal_records).1 e.unfilled.1,
      (length-zero_iff s.lessons).1 e.unfilled.2,
      (str_eq_iff s.best_candidate_id "").1 e.unchosen.0,
      (length-zero_iff s.frontier_ids).1 e.unchosen.1,
      (length-zero_iff s.spans).1 e.unchosen.2,
      (eqb_ℤ-zero_iff s.metric_calls).1 e.uncounted.0,
      (eqb_ℤ-zero_iff s.iterations).1 e.uncounted.1,
      e.uncounted.2,
    ),
  )

  -- The fields of the state are those of the one that was saved.
  pub record Carries (s : SavedState F T) (t : OptimizationState F T) : Type 0 where
    pub named : (t.run_id ≡ s.run_id) × (t.config_fingerprint ≡ s.config_fingerprint)
    pub counts : (pos t.iterations ≡ s.iterations) × (pos t.metric_calls ≡ s.metric_calls)
    pub records : (t.candidates ≡ s.candidates) × (t.proposal_records ≡ s.proposal_records)
    pub chosen : (t.best_candidate_id ≡ s.best_candidate_id) × (t.frontier_ids ≡ s.frontier_ids)
    pub kept : (t.lessons ≡ s.lessons) × (t.ledger ≡ s.ledger) × (t.spans ≡ s.spans)

  pos_part-same : (a : ℤ) → pos 0 ≤ℤ a → pos (pos_part a) ≡ a
  pos_part-same (pos n) h = refl
  pos_part-same (negsuc n) h = absurd (omega (arith, h))

  module _ (c : OptimizationConfig F T) (E : Env F T) where
    -- The state was saved by a run of this configuration.
    abbrev pub SameConfig : SavedState F T → Type 0
    SameConfig s = s.config_fingerprint ≡ E.config_fingerprint c (validation_set F T c)

    resumed-Carries : (s : SavedState F T) → ValidState F T E s → Carries s (resumed F T s)
    resumed-Carries s v = record {
      named = (refl, refl);
      counts = (pos_part-same s.iterations v.counts.1, pos_part-same s.metric_calls v.counts.0);
      records = (refl, refl);
      chosen = (refl, refl);
      kept = (refl, refl, refl);
    }

    module _ (R : ResumeErrors F T c E) where
      abbrev pub Resumes : SavedState F T → Out T.Error (Unit {0}) × St F T → Type 0
      Resumes s r = ((r.0 ≡ ok tt) × Carries s r.1.state) ↔ (ValidState F T E s × SameConfig s)

      -- `startState` after a load of a state that is not empty has no error and starts from the fields of
      -- that state exactly where the state is valid and was saved by a run of this configuration.
      pub start_loaded-resumes_iff :
          (s : SavedState F T) (st : St F T)
          → ¬ IsEmpty s
          → (let r = start_loaded F T c E R (loaded s) st in
              ((r.0 ≡ ok tt) × Carries s r.1.state) ↔ (ValidState F T E s × SameConfig s))
      unfolding start_loaded
      start_loaded-resumes_iff s st full =
          if-rel (Resumes s) (is_missing F T s) _ _
            (λ h. absurd (full ((is_missing-true_iff s).0 h)))
            (λ _. checked (validate_state F T E s) refl)
        where
          checked :
              (o : Option StateError)
              → validate_state F T E s ≡ o
              → Resumes s (elim o [
                | some e ↦ (err (R.invalid e), record st { state = resumed F T s })
                | none ↦
                    if str_eq s.config_fingerprint (E.config_fingerprint c (validation_set F T c))
                    then (ok tt, record st { state = resumed F T s })
                    else (
                      err (
                          R.other_fingerprint s.config_fingerprint
                            (E.config_fingerprint c (validation_set F T c))),
                      record st { state = resumed F T s },
                    )
              ])
          checked (some e) p = (
            λ h. absurd (cc (h.0)),
            λ v. absurd (cc (p, (validate_state-none_iff F T E s).1 v.0)),
          )
          checked none p =
              let now = E.config_fingerprint c (validation_set F T c) in
              if-rel (Resumes s) (str_eq s.config_fingerprint now) _ _
                (λ e. (
                  λ _. (
                    (validate_state-none_iff F T E s).0 p,
                    (str_eq_iff s.config_fingerprint now).0 e,
                  ),
                  λ v. (refl, resumed-Carries s v.0),
                ))
                (λ e. (
                  λ h. absurd (cc (h.0)),
                  λ v. absurd (cc (e, (str_eq_iff s.config_fingerprint now).1 v.1)),
                ))
