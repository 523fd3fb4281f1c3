-- ===== src/Frontier/Dominance.antt =====
-- `dominates` of optimizer_support.go.
use gepago.Base.{
  ◌≡◌, refl, sym, ◌∙◌, String, Bool, true, false, ◌||◌, Option, none, some, List, [], ◌∷◌, arith,
  inl, inr, Bool-cases, if◌then◌else◌,
}
use gepago.Floats.{Floats, IsOrdered}
use gepago.Frontier.Defs.{
  Dimension, CandidateRecord, score_by_id, dominates_from, dominates, score_dimensions,
}

module _ (F : Floats) (o : IsOrdered F) where
  open F use {Num, lt}

  pub nlt_trans : (a b c : Num) → lt a b ≡ false → lt b c ≡ false → lt a c ≡ false
  nlt_trans a b c h k = elim (Bool-cases (lt a c)) [
    | inr no_less ↦ no_less
    | inl less ↦ elim (Bool-cases (lt b a)) [
      | inl p ↦ absurd (cc (o.lt_trans b a c p less))
      | inr p ↦ let e : a ≡ b = o.lt_connex a b h p in absurd (cc)
    ]
  ]

  -- c ≤ b and b < a.
  lt_of_nlt : (a b c : Num) → lt b c ≡ false → lt b a ≡ true → lt c a ≡ true
  lt_of_nlt a b c h k = elim (Bool-cases (lt c a)) [
    | inl less ↦ less
    | inr p ↦ elim (Bool-cases (lt a c)) [
      | inl q ↦ absurd (cc (o.lt_trans b a c k q))
      | inr q ↦ let e : c ≡ a = o.lt_connex c a p q in absurd (cc)
    ]
  ]

  -- a ≥ b and c < b.
  lt_of_nlt' : (a b c : Num) → lt a b ≡ false → lt c b ≡ true → lt c a ≡ true
  lt_of_nlt' a b c h k = elim (Bool-cases (lt c a)) [
    | inl less ↦ less
    | inr p ↦ elim (Bool-cases (lt a c)) [
      | inl q ↦ absurd (cc (o.lt_trans a c b q k))
      | inr q ↦ let e : c ≡ a = o.lt_connex c a p q in absurd (cc)
    ]
  ]

  -- One dimension: its scores, and what the rest of the loop gives from a flag.
  one_dimension : Bool → Option Num → Option Num → (Bool → Bool) → Bool
  one_dimension better none right rest = false
  one_dimension better (some l) none rest = false
  one_dimension better (some l) (some r) rest = if lt l r then false else rest (better || lt r l)

  dominates_from-cons :
      (better : Bool) (d : Dimension) (ds : List Dimension) (i j : String)
      (rs : List (CandidateRecord F))
      → dominates_from F better (d ∷ ds) i j rs
        ≡ one_dimension better
            (score_by_id F d i rs)
            (score_by_id F d j rs)
            (λ b. dominates_from F b ds i j rs)
  unfolding dominates_from one_dimension
  dominates_from-cons better d ds i j rs = ground arith

  -- The flags x and y give z, and still do after a dimension.
  one_dimension_trans :
      (x y z : Bool) (l m r : Option Num) (f g h : Bool → Bool)
      → (x ≡ true → z ≡ true)
      → (y ≡ true → z ≡ true)
      → ((x' y' z' : Bool)
          → (x' ≡ true → z' ≡ true)
          → (y' ≡ true → z' ≡ true)
          → f x' ≡ true
          → g y' ≡ true
          → h z' ≡ true)
      → one_dimension x l m f ≡ true
      → one_dimension y m r g ≡ true
      → one_dimension z l r h ≡ true
  unfolding one_dimension
  one_dimension_trans x y z none m r f g h p q ih s t = cc
  one_dimension_trans x y z (some a) none r f g h p q ih s t = cc
  one_dimension_trans x y z (some a) (some b) none f g h p q ih s t = cc
  one_dimension_trans x y z (some a) (some b) (some c) f g h p q ih s t =
      let p' : (x || lt b a) ≡ true → (z || lt c a) ≡ true = λ e. ground (arith, lt_of_nlt a b c) in
      let q' : (y || lt c b) ≡ true → (z || lt c a) ≡ true =
        λ e. ground (arith, lt_of_nlt' a b c) in
      ground (arith, nlt_trans a b c, ih (x || lt b a) (y || lt c b) (z || lt c a) p' q')

  dominates_from_trans :
      (x y z : Bool) (ds : List Dimension) (i j k : String) (rs : List (CandidateRecord F))
      → (x ≡ true → z ≡ true)
      → (y ≡ true → z ≡ true)
      → dominates_from F x ds i j rs ≡ true
      → dominates_from F y ds j k rs ≡ true
      → dominates_from F z ds i k rs ≡ true
  dominates_from_trans x y z [] i j k rs p q h g = unfold dominates_from in p h
  dominates_from_trans x y z (d ∷ ds) i j k rs p q h g =
      dominates_from-cons z d ds i k rs
      ∙ one_dimension_trans x y z _ _ _ _ _ _ p q
          (λ x' y' z' p' q' h' g'. dominates_from_trans x' y' z' ds i j k rs p' q' h' g')
          (sym (dominates_from-cons x d ds i j rs) ∙ h)
          (sym (dominates_from-cons y d ds j k rs) ∙ g)

  -- On scores that are ordered, what dominates a record that dominates another dominates that one.
  pub dominates_trans :
      (i j k : String) (rs : List (CandidateRecord F))
      → dominates F i j rs ≡ true
      → dominates F j k rs ≡ true
      → dominates F i k rs ≡ true
  unfolding dominates
  dominates_trans i j k rs h g =
      dominates_from_trans false false false (score_dimensions F rs) i j k rs (λ e. e) (λ e. e) h g

  one_dimension_irrefl :
      (l : Option Num) (rest : Bool → Bool)
      → rest false ≡ false
      → one_dimension false l l rest ≡ false
  unfolding one_dimension
  one_dimension_irrefl none rest h = refl
  one_dimension_irrefl (some a) rest h = rw (o.lt_irrefl a) h

  dominates_from_irrefl :
      (ds : List Dimension) (k : String) (rs : List (CandidateRecord F))
      → dominates_from F false ds k k rs ≡ false
  dominates_from_irrefl [] k rs = unfold dominates_from in refl
  dominates_from_irrefl (d ∷ ds) k rs =
      dominates_from-cons false d ds k k rs
      ∙ one_dimension_irrefl (score_by_id F d k rs) _ (dominates_from_irrefl ds k rs)

  -- On scores that are ordered, no record dominates itself.
  pub dominates_irrefl : (k : String) (rs : List (CandidateRecord F)) → dominates F k k rs ≡ false
  unfolding dominates
  dominates_irrefl k rs = dominates_from_irrefl (score_dimensions F rs) k rs
