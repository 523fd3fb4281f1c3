-- ===== src/Frontier/Dimensions.antt =====
-- optimizer_support.go: `scoreDimensions` finds each dimension that a record has a score on.
use Prim.Native.Nat.{Ordering}
use Prim.Native.String.{compare as text_compare}
use text.Mathlib.TextEquality.{path_by_compare}
use gepago.Base.{
  ◌≡◌, refl, subst, sym, ap, ◌∙◌, Bool, Option, none, some, List, [], ◌∷◌, String, arith, str_eq,
  str_eq_iff, if◌then◌else◌, Bool-cases, ◌⊎◌, inl, inr,
}
use gepago.Floats.{Floats}
use gepago.Frontier.Defs.{
  CandidateRecord, Dimension, find, score, compare_dimensions, see, see_scores, see_objectives,
  see_all_objectives, see_records,
}

-- Some element satisfies the predicate.
abbrev pub Any {ℓ} : {A : Type ℓ} → (A → Type 0) → List A → Type 0
Any P [] = ⊥
Any P (x ∷ xs) = P x ⊎ Any P xs

compare_dimensions-eq : (d e : Dimension) → compare_dimensions d e ≡ Ordering.eq → d ≡ e
unfolding compare_dimensions
compare_dimensions-eq d e h = go (text_compare d.example_id e.example_id) refl h
  where
    go :
        (x : Ordering)
        → text_compare d.example_id e.example_id ≡ x
        → (elim x [ Ordering.eq ↦ text_compare d.objective e.objective | other ↦ other ])
          ≡ Ordering.eq
        → d ≡ e
    go Ordering.lt p h = cc
    go Ordering.gt p h = cc
    go Ordering.eq p h =
        let same = path_by_compare d.example_id e.example_id p in
        let same' = path_by_compare d.objective e.objective h in
        λ i. record { example_id = same i; objective = same' i }

module _ (Q : Dimension → Type 0) where
  see-here : (d : Dimension) (ds : List Dimension) → Q d → Any Q (see d ds)
  unfolding see
  see-here d [] q = inl q
  see-here d (e ∷ es) q = go (compare_dimensions d e) refl (see-here d es q)
    where
      go :
          (x : Ordering)
          → compare_dimensions d e ≡ x
          → Any Q (see d es)
          → Any Q (elim x [
            | Ordering.lt ↦ d ∷ e ∷ es
            | Ordering.eq ↦ e ∷ es
            | Ordering.gt ↦ e ∷ see d es
          ])
      go Ordering.lt p later = inl q
      go Ordering.eq p later = inl (subst Q (compare_dimensions-eq d e p) q)
      go Ordering.gt p later = inr later

  see-keeps : (d : Dimension) (ds : List Dimension) → Any Q ds → Any Q (see d ds)
  unfolding see
  see-keeps d [] h = inr h
  see-keeps d (e ∷ es) h = go (compare_dimensions d e) h (see-keeps d es)
    where
      go :
          (x : Ordering)
          → Q e ⊎ Any Q es
          → (Any Q es → Any Q (see d es))
          → Any Q (elim x [
            | Ordering.lt ↦ d ∷ e ∷ es
            | Ordering.eq ↦ e ∷ es
            | Ordering.gt ↦ e ∷ see d es
          ])
      go Ordering.lt h later = inr h
      go Ordering.eq h later = h
      go Ordering.gt (inl q) later = inl q
      go Ordering.gt (inr h) later = inr (later h)

  module _ (F : Floats) where
    open F use {Num}

    see_scores-keeps :
        (m : List (String × Num)) (ds : List Dimension) → Any Q ds → Any Q (see_scores F m ds)
    unfolding see_scores
    see_scores-keeps [] ds h = h
    see_scores-keeps ((k, _) ∷ m) ds h = see_scores-keeps m _ (see-keeps _ ds h)

    see_objectives-keeps :
        (k : String) (m : List (String × Num)) (ds : List Dimension)
        → Any Q ds
        → Any Q (see_objectives F k m ds)
    unfolding see_objectives
    see_objectives-keeps k [] ds h = h
    see_objectives-keeps k ((_, _) ∷ m) ds h = see_objectives-keeps k m _ (see-keeps _ ds h)

    see_all_objectives-keeps :
        (m : List (String × List (String × Num))) (ds : List Dimension)
        → Any Q ds
        → Any Q (see_all_objectives F m ds)
    unfolding see_all_objectives
    see_all_objectives-keeps [] ds h = h
    see_all_objectives-keeps ((k, scores) ∷ m) ds h =
        see_all_objectives-keeps m _ (see_objectives-keeps k scores ds h)

    see_records-keeps :
        (rs : List (CandidateRecord F)) (ds : List Dimension)
        → Any Q ds
        → Any Q (see_records F rs ds)
    unfolding see_records
    see_records-keeps [] ds h = h
    see_records-keeps (r ∷ rs) ds h = see_records-keeps rs _ (
        see_all_objectives-keeps r.objective_scores_by_example _
          (see_scores-keeps r.scores_by_example ds h))

    -- A key that a map has is seen.
    see_scores-here :
        (k : String) (m : List (String × Num)) (ds : List Dimension) (t : Num)
        → find k m ≡ some t
        → Q (record { example_id = k; objective = "" })
        → Any Q (see_scores F m ds)
    unfolding see_scores find
    see_scores-here k [] ds t h q = cc
    see_scores-here k ((j, v) ∷ m) ds t h q = elim (Bool-cases (str_eq j k)) [
      | inl e ↦
          let same = (str_eq_iff j k).0 e in
          see_scores-keeps m _ (
            see-here _ ds (subst (λ x. Q (record { example_id = x; objective = "" })) (sym same) q))
      | inr e ↦ see_scores-here k m _ t (ground (arith, h, e)) q
    ]

    see_objectives-here :
        (i k : String) (m : List (String × Num)) (ds : List Dimension) (t : Num)
        → find k m ≡ some t
        → Q (record { example_id = i; objective = k })
        → Any Q (see_objectives F i m ds)
    unfolding see_objectives find
    see_objectives-here i k [] ds t h q = cc
    see_objectives-here i k ((j, v) ∷ m) ds t h q = elim (Bool-cases (str_eq j k)) [
      | inl e ↦
          let same = (str_eq_iff j k).0 e in
          see_objectives-keeps i m _
            (see-here _ ds (subst (λ x. Q (record { example_id = i; objective = x })) (sym same) q))
      | inr e ↦ see_objectives-here i k m _ t (ground (arith, h, e)) q
    ]

    see_all_objectives-here :
        (i k : String) (m : List (String × List (String × Num))) (ds : List Dimension)
        (scores : List (String × Num)) (t : Num)
        → find i m ≡ some scores
        → find k scores ≡ some t
        → Q (record { example_id = i; objective = k })
        → Any Q (see_all_objectives F m ds)
    unfolding see_all_objectives
    see_all_objectives-here i k [] ds scores t h g q = unfold find in cc
    see_all_objectives-here i k ((j, v) ∷ m) ds scores t h g q = elim (Bool-cases (str_eq j i)) [
      | inl e ↦
          let same = (str_eq_iff j i).0 e in
          let here : v ≡ scores = unfold find in ground (arith, h, e) in
          see_all_objectives-keeps m _ (
            see_objectives-here j k v ds t (ap (find k) here ∙ g)
              (subst (λ x. Q (record { example_id = x; objective = k })) (sym same) q))
      | inr e ↦ see_all_objectives-here i k m _ scores t (unfold find in ground (arith, h, e)) g q
    ]

    see_record-here :
        (d : Dimension) (r : CandidateRecord F) (ds : List Dimension) (t : Num)
        → score F d r ≡ some t
        → Q d
        → Any Q (
            see_all_objectives F r.objective_scores_by_example
              (see_scores F r.scores_by_example ds))
    unfolding score
    see_record-here d r ds t h q = elim (Bool-cases (str_eq d.objective "")) [
      | inl e ↦
          let plain = (str_eq_iff d.objective "").0 e in
          see_all_objectives-keeps r.objective_scores_by_example _ (
            see_scores-here d.example_id r.scores_by_example ds t (ground (arith, h, e))
              (subst (λ x. Q (record { example_id = d.example_id; objective = x })) plain q))
      | inr e ↦ go (find d.example_id r.objective_scores_by_example) refl (
          sym (
            ap
              (λ (b : Bool).
                if b
                then find d.example_id r.scores_by_example
                else elim (find d.example_id r.objective_scores_by_example) [
                  | none ↦ none
                  | some scores ↦ find d.objective scores
                ])
              e)
          ∙ h)
    ]
      where
        go :
            (x : Option (List (String × Num)))
            → find d.example_id r.objective_scores_by_example ≡ x
            → (elim x [ none ↦ none | some scores ↦ find d.objective scores ]) ≡ some t
            → Any Q (
                see_all_objectives F r.objective_scores_by_example
                  (see_scores F r.scores_by_example ds))
        go none p h = cc
        go (some scores) p h =
            see_all_objectives-here d.example_id d.objective r.objective_scores_by_example _ scores
              t p h q

    pub see_records-here :
        (d : Dimension) (rs : List (CandidateRecord F)) (ds : List Dimension)
        → Q d
        → Any (λ r. (t : Num) × (score F d r ≡ some t)) rs
        → Any Q (see_records F rs ds)
    unfolding see_records
    see_records-here d [] ds q h = absurd h
    see_records-here d (r ∷ rs) ds q (inl (t, h)) =
        see_records-keeps rs _ (see_record-here d r ds t h q)
    see_records-here d (r ∷ rs) ds q (inr h) = see_records-here d rs _ q h
