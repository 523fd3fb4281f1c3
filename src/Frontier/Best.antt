-- ===== src/Frontier/Best.antt =====
-- optimizer_support.go: what `scoreDimension.best` finds.
use gepago.Base.{
  ◌≡◌, refl, subst, Bool, true, false, ◌||◌, ◌&&◌, not, Option, none, some, List, [], ◌∷◌, String,
  arith, str_eq, if-rel, Bool-cases, inl, inr,
}
use gepago.Floats.{Floats, IsOrdered}
use gepago.Frontier.Defs.{CandidateRecord, Dimension, score, best_step, best_from, best}

module _ (F : Floats) where
  open F use {Num, lt, eq}

  -- The record has this score on the dimension.
  abbrev pub is_score : Option Num → Num → Bool
  is_score none s = false
  is_score (some t) s = eq t s

  -- Some record of this name has the score on the dimension.
  abbrev pub attains : String → Dimension → Num → List (CandidateRecord F) → Bool
  attains k d s [] = false
  attains k d s (r ∷ rs) = str_eq r.id k && is_score (score F d r) s || attains k d s rs

  -- A score, where there is one, is not above this one.
  abbrev pub IsBelow : Num → Option Num → Type 0
  IsBelow s none = Unit
  IsBelow s (some t) = lt s t ≡ false

  -- No record has a higher score on the dimension.
  abbrev pub Highest : Dimension → Num → List (CandidateRecord F) → Type 0
  Highest d s [] = Unit
  Highest d s (r ∷ rs) = IsBelow s (score F d r) × Highest d s rs

  module _ (o : IsOrdered F) where
    at_most_trans : (a b c : Num) → lt a b ≡ false → lt b c ≡ false → lt a c ≡ false
    at_most_trans a b c h k = elim (Bool-cases (lt a c)) [
      | inr e ↦ e
      | inl e ↦ elim (Bool-cases (lt c b)) [
        | inl g ↦ cc (o.lt_trans a c b e g)
        | inr g ↦ cc (o.lt_connex b c k g)
      ]
    ]

    asym : (a b : Num) → lt a b ≡ true → lt b a ≡ false
    asym a b h = elim (Bool-cases (lt b a)) [
      | inr e ↦ e
      | inl e ↦ cc (o.lt_trans a b a h e, o.lt_irrefl a)
    ]

    -- The loop never lowers the best so far, and no record is above what it ends with.
    abbrev Raised :
        Dimension → List (CandidateRecord F) → Option Num → Num × Bool → Num × Bool → Type 0
    Raised d rs x acc acc' =
        let top = (best_from F acc' d rs).0 in
        (acc.1 ≡ true → lt top acc.0 ≡ false) × (IsBelow top x × Highest d top rs)

    best_from-cons :
        (d : Dimension) (r : CandidateRecord F) (rs : List (CandidateRecord F)) (acc : Num × Bool)
        → best_from F (best_step F acc (score F d r)) d rs ≡ best_from F acc d (r ∷ rs)
    unfolding best_from
    best_from-cons d r rs acc = refl

    best_from-Highest :
        (d : Dimension) (rs : List (CandidateRecord F)) (acc : Num × Bool)
        → (acc.1 ≡ true → lt (best_from F acc d rs).0 acc.0 ≡ false)
          × Highest d (best_from F acc d rs).0 rs
    unfolding best_from best_step
    best_from-Highest d [] acc = (λ _. o.lt_irrefl acc.0, tt)
    best_from-Highest d (r ∷ rs) (b, seen) =
        subst (λ (end : Num × Bool). (seen ≡ true → lt end.0 b ≡ false) × Highest d end.0 (r ∷ rs))
          (best_from-cons d r rs (b, seen)) (go (score F d r) (best_from-Highest d rs))
      where
        go :
            (x : Option Num)
            → ((acc : Num × Bool)
                → (acc.1 ≡ true → lt (best_from F acc d rs).0 acc.0 ≡ false)
                  × Highest d (best_from F acc d rs).0 rs)
            → Raised d rs x (b, seen) (best_step F (b, seen) x)
        go none later = let (up, high) = later (b, seen) in (up, (tt, high))
        go (some s) later =
            if-rel (Raised d rs (some s) (b, seen)) (not seen || lt b s) (s, true) (b, seen)
              (λ h.
                let (up, high) = later (s, true) in
                (
                  λ k. at_most_trans _ s b (up refl) (asym b s (ground (arith, h, k))),
                  (up refl, high),
                ))
              (λ h.
                let (up, high) = later (b, seen) in
                let up' = up (ground (arith, h)) in
                (λ _. up', (at_most_trans _ b s up' (ground (arith, h)), high)))

    -- The loop has seen a score where there is one, and ends with no more than bounds all of them.
    abbrev Capped : Num → Dimension → List (CandidateRecord F) → Num × Bool → Type 0
    Capped s d rs acc =
        ((acc.1 ≡ true → lt s acc.0 ≡ false)
          → Highest d s rs
          → (best_from F acc d rs).1 ≡ true
          → lt s (best_from F acc d rs).0 ≡ false)
        × (acc.1 ≡ true → (best_from F acc d rs).1 ≡ true)

    best_from-Capped :
        (s : Num) (d : Dimension) (rs : List (CandidateRecord F)) (acc : Num × Bool)
        → Capped s d rs acc
    unfolding best_from best_step
    best_from-Capped s d [] acc = (λ low _ seen. low seen, λ h. h)
    best_from-Capped s d (r ∷ rs) (b, seen) = go (score F d r) (best_from-Capped s d rs)
      where
        go :
            (x : Option Num)
            → ((acc : Num × Bool) → Capped s d rs acc)
            → (let top = best_from F (best_step F (b, seen) x) d rs in
                ((seen ≡ true → lt s b ≡ false)
                  → IsBelow s x × Highest d s rs
                  → top.1 ≡ true
                  → lt s top.0 ≡ false)
                × (seen ≡ true → top.1 ≡ true))
        go none later = let (caps, sees) = later (b, seen) in (λ low high. caps low high.1, sees)
        go (some t) later =
            if-rel
              (λ acc.
                let top = best_from F acc d rs in
                ((seen ≡ true → lt s b ≡ false)
                  → IsBelow s (some t) × Highest d s rs
                  → top.1 ≡ true
                  → lt s top.0 ≡ false)
                × (seen ≡ true → top.1 ≡ true))
              (not seen || lt b t) (t, true) (b, seen)
              (λ _.
                let (caps, sees) = later (t, true) in
                (λ low high. caps (λ _. high.0) high.1, λ _. sees refl))
              (λ _. let (caps, sees) = later (b, seen) in (λ low high. caps low high.1, sees))

    attains-seen :
        (k : String) (s : Num) (d : Dimension) (rs : List (CandidateRecord F)) (acc : Num × Bool)
        → attains k d s rs ≡ true
        → (best_from F acc d rs).1 ≡ true
    unfolding best_from best_step
    attains-seen k s d [] acc h = cc
    attains-seen k s d (r ∷ rs) (b, seen) h =
        go (score F d r) h (attains-seen k s d rs) (λ acc. (best_from-Capped s d rs acc).1)
      where
        go :
            (x : Option Num)
            → (str_eq r.id k && is_score x s || attains k d s rs) ≡ true
            → ((acc : Num × Bool) → attains k d s rs ≡ true → (best_from F acc d rs).1 ≡ true)
            → ((acc : Num × Bool) → acc.1 ≡ true → (best_from F acc d rs).1 ≡ true)
            → (best_from F (best_step F (b, seen) x) d rs).1 ≡ true
        go none h later kept = later (b, seen) (ground (arith, h))
        go (some t) h later kept =
            if-rel (λ acc. (best_from F acc d rs).1 ≡ true) (not seen || lt b t) (t, true) (b, seen)
              (λ _. kept (t, true) refl) (λ g. kept (b, seen) (ground (arith, g)))

    attains-below :
        (k : String) (s top : Num) (d : Dimension) (rs : List (CandidateRecord F))
        → Highest d top rs
        → attains k d s rs ≡ true
        → lt top s ≡ false
    attains-below k s top d [] high h = cc
    attains-below k s top d (r ∷ rs) (high, highs) h =
        go (score F d r) high h (attains-below k s top d rs highs)
      where
        go :
            (x : Option Num)
            → IsBelow top x
            → (str_eq r.id k && is_score x s || attains k d s rs) ≡ true
            → (attains k d s rs ≡ true → lt top s ≡ false)
            → lt top s ≡ false
        go none high h later = later (ground (arith, h))
        go (some t) high h later = elim (Bool-cases (attains k d s rs)) [
          | inl e ↦ later e
          | inr e ↦ subst (λ c. lt top c ≡ false) ((o.eq_iff t s).0 (ground (arith, h, e))) high
        ]

    pub best-Highest : (d : Dimension) (rs : List (CandidateRecord F)) → Highest d (best F d rs) rs
    unfolding best
    best-Highest d rs = (best_from-Highest d rs (F.nought, false)).1

    -- `best` is the one score that is attained and that no record is above.
    pub best_unique :
        (k : String) (s : Num) (d : Dimension) (rs : List (CandidateRecord F))
        → attains k d s rs ≡ true
        → Highest d s rs
        → s ≡ best F d rs
    unfolding best
    best_unique k s d rs there high =
        let start : Num × Bool = (F.nought, false) in
        let seen = attains-seen k s d rs start there in
        o.lt_connex s (best F d rs) ((best_from-Capped s d rs start).0 (λ h. cc) high seen)
          (attains-below k s (best F d rs) d rs (best_from-Highest d rs start).1 there)
