-- ===== src/Optimizer/Valid.antt =====
-- optimizer_state.go: which saved states `Validate` lets pass.
use gepago.Base.{
  ◌<◌, ◌≡◌, ◌↔◌, refl, String, true, false, Option, none, some, List, [], ◌∷◌, All, arith, str_eq,
  str_eq_iff, length,
}
use gepago.Base.Int.{pos, ◌≤ℤ◌}
use gepago.Floats.{Floats}
use gepago.Frontier.Defs.{CandidateRecord}
use gepago.Frontier.Keys.{has, Distinct}
use gepago.Optimizer.Data.{Types, Env}
use gepago.Optimizer.Saved.{
  StateError, SavedState, ids_of, validate_identity, validate_counters, candidate_index,
  validate_best_candidate, frontier_from, validate_frontier, first_error, validate_state,
}

-- No text of the list is among these.
abbrev Fresh : List String → List String → Type 0
Fresh seen ks = All (λ k. has k seen ≡ false) ks

str_eq_comm : (j k : String) → str_eq j k ≡ str_eq k j
str_eq_comm j k = ground (arith, str_eq_iff j k, str_eq_iff k j)

-- What is fresh beside one text more differs from that text.
with_one_more :
    (k : String) (seen ks : List String)
    → Fresh (k ∷ seen) ks ↔ ((has k ks ≡ false) × Fresh seen ks)
with_one_more k seen [] = (λ h. (refl, tt), λ h. tt)
with_one_more k seen (j ∷ ks) =
    let (to, from) = with_one_more k seen ks in
    let comm = str_eq_comm j k in
    (
      λ h.
          let (far, fresh) = to h.1 in
          let here = h.0 in (ground (arith, comm, far, here), (ground (arith, here), fresh)),
      λ h.
          let absent = h.0 in
          let here = h.1.0 in
          (ground (arith, comm, absent, here), from (ground (arith, absent), h.1.1)),
    )

with_none_seen : (ks : List String) → Fresh [] ks
with_none_seen [] = tt
with_none_seen (k ∷ ks) = (refl, with_none_seen ks)

module _ (F : Floats) (T : Types) (E : Env F T) where
  -- A record with a name and with parts.
  abbrev pub Whole : CandidateRecord F → Type 0
  Whole r = (E.blank r.id ≡ false) × (0 < length r.candidate)

  -- A state that may be resumed: it is named, counts nothing below zero, has records with distinct
  -- names, its best record is one of them, and its frontier is not empty and without repetitions, of
  -- their names.
  pub record ValidState (s : SavedState F T) : Type 0 where
    pub named :
        (E.blank s.run_id ≡ false) × (s.started ≡ true) × (E.blank s.config_fingerprint ≡ false)
    pub counts : (pos 0 ≤ℤ s.metric_calls) × (pos 0 ≤ℤ s.iterations) × (0 < length s.candidates)
    pub records : All Whole s.candidates × Distinct (ids_of s.candidates)
    pub best :
        (E.blank s.best_candidate_id ≡ false)
        × (has s.best_candidate_id (ids_of s.candidates) ≡ true)
    pub frontier :
        (0 < length s.frontier_ids)
        × All (λ k. has k (ids_of s.candidates) ≡ true) s.frontier_ids
        × Distinct s.frontier_ids

  first_error-none :
      (a b : Option StateError) → (first_error F T E a b ≡ none) ↔ ((a ≡ none) × (b ≡ none))
  first_error-none none b = (λ h. (refl, h), λ h. h.1)
  first_error-none (some e) b = (λ h. absurd (cc), λ h. absurd (cc))

  validate_identity-none :
      (s : SavedState F T)
      → (validate_identity F T E s ≡ none)
        ↔ ((E.blank s.run_id ≡ false) × (s.started ≡ true) × (E.blank s.config_fingerprint ≡ false))
  unfolding validate_identity
  validate_identity-none s = ground arith

  validate_counters-none :
      (s : SavedState F T)
      → (validate_counters F T E s ≡ none)
        ↔ ((pos 0 ≤ℤ s.metric_calls) × (pos 0 ≤ℤ s.iterations) × (0 < length s.candidates))
  unfolding validate_counters
  validate_counters-none s = ground arith

  validate_best_candidate-none :
      (s : SavedState F T) (ids : List String)
      → (validate_best_candidate F T E s ids ≡ none)
        ↔ ((E.blank s.best_candidate_id ≡ false) × (has s.best_candidate_id ids ≡ true))
  unfolding validate_best_candidate
  validate_best_candidate-none s ids = ground arith

  candidate_index-none :
      (seen : List String) (rs : List (CandidateRecord F))
      → (candidate_index F T E seen rs ≡ none)
        ↔ (All Whole rs × Distinct (ids_of rs) × Fresh seen (ids_of rs))
  unfolding candidate_index
  candidate_index-none seen [] = (λ h. (tt, tt, tt), λ h. refl)
  candidate_index-none seen (r ∷ rs) =
      let (to, from) = candidate_index-none (r.id ∷ seen) rs in
      let (out, back) = with_one_more r.id seen (ids_of rs) in
      (
        λ h.
            let head : (E.blank r.id ≡ false)
                × (has r.id seen ≡ false)
                × (0 < length r.candidate)
                × (candidate_index F T E (r.id ∷ seen) rs ≡ none) =
              ground (arith, h) in
            let (whole, distinct, fresh) = to head.3 in
            let (absent, older) = out fresh in
            (((head.0, head.2), whole), (absent, distinct), (head.1, older)),
        λ h.
            let rest : candidate_index F T E (r.id ∷ seen) rs ≡ none =
              from (h.0.1, h.1.1, back (h.1.0, h.2.1)) in
            let blank = h.0.0.0 in
            let parts = h.0.0.1 in let unseen = h.2.0 in ground (arith, rest, blank, parts, unseen),
      )

  frontier_from-none :
      (ids seen ks : List String)
      → (frontier_from F T E ids seen ks ≡ none)
        ↔ (All (λ k. has k ids ≡ true) ks × Distinct ks × Fresh seen ks)
  unfolding frontier_from
  frontier_from-none ids seen [] = (λ h. (tt, tt, tt), λ h. refl)
  frontier_from-none ids seen (k ∷ ks) =
      let (to, from) = frontier_from-none ids (k ∷ seen) ks in
      let (out, back) = with_one_more k seen ks in
      (
        λ h.
            let head : (has k ids ≡ true)
                × (has k seen ≡ false)
                × (frontier_from F T E ids (k ∷ seen) ks ≡ none) =
              ground (arith, h) in
            let (known, distinct, fresh) = to head.2 in
            let (absent, older) = out fresh in
            ((head.0, known), (absent, distinct), (head.1, older)),
        λ h.
            let rest : frontier_from F T E ids (k ∷ seen) ks ≡ none =
              from (h.0.1, h.1.1, back (h.1.0, h.2.1)) in
            let here = h.0.0 in let unseen = h.2.0 in ground (arith, rest, here, unseen),
      )

  validate_frontier-none :
      (s : SavedState F T) (ids : List String)
      → (validate_frontier F T E s ids ≡ none) ↔ (
          (0 < length s.frontier_ids)
          × All (λ k. has k ids ≡ true) s.frontier_ids
          × Distinct s.frontier_ids)
  unfolding validate_frontier
  validate_frontier-none s ids =
      let (to, from) = frontier_from-none ids [] s.frontier_ids in
      (
        λ h.
            let head : (0 < length s.frontier_ids)
                × (frontier_from F T E ids [] s.frontier_ids ≡ none) =
              ground (arith, h) in
            let (known, distinct, _) = to head.1 in (head.0, known, distinct),
        λ h.
            let rest = from (h.1, h.2, with_none_seen s.frontier_ids) in
            let some_id = h.0 in ground (arith, rest, some_id),
      )

  -- `Validate` lets exactly the valid states pass.
  pub validate_state-none_iff :
      (s : SavedState F T) → (validate_state F T E s ≡ none) ↔ ValidState s
  unfolding validate_state
  validate_state-none_iff s =
      let ids = ids_of s.candidates in
      let named = validate_identity-none s in
      let counts = validate_counters-none s in
      let records = candidate_index-none [] s.candidates in
      let best = validate_best_candidate-none s ids in
      let frontier = validate_frontier-none s ids in
      (
        λ h.
            let (a, h1) = (first_error-none (validate_identity F T E s) _).0 h in
            let (b, h2) = (first_error-none (validate_counters F T E s) _).0 h1 in
            let (c, h3) = (first_error-none (candidate_index F T E [] s.candidates) _).0 h2 in
            let (d, e) = (first_error-none (validate_best_candidate F T E s ids) _).0 h3 in
            let (whole, distinct, _) = records.0 c in
            record {
              named = named.0 a;
              counts = counts.0 b;
              records = (whole, distinct);
              best = best.0 d;
              frontier = frontier.0 e;
            },
        λ v. (first_error-none (validate_identity F T E s) _).1 (
          named.1 v.named,
          (first_error-none (validate_counters F T E s) _).1 (
            counts.1 v.counts,
            (first_error-none (candidate_index F T E [] s.candidates) _).1 (
              records.1 (v.records.0, v.records.1, with_none_seen ids),
              (first_error-none (validate_best_candidate F T E s ids) _).1
                  (best.1 v.best, frontier.1 v.frontier),
            ),
          ),
        ),
      )
