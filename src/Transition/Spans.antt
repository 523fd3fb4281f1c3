-- ===== src/Transition/Spans.antt =====
-- pipeline_transition.go: the ranges of rewinds that are recorded.
use gepago.Base.{
  ℕ, ◌+◌, ◌≤◌, ◌≡◌, refl, ap, sym, ◌∙◌, subst, Bool, true, false, List, [], ◌∷◌, All, arith, if-rel,
  if◌then◌else◌, Bool-cases, inl, inr,
}
use gepago.Transition.Defs.{
  Target, step, end_target, fail_target, TransitionRule, same_span, has_span,
}
use gepago.Transition.Ranges.{range_with, distinct_ranges, holds, count_ranges}
use gepago.Flow.Hooks.{lands}

same_span_eq : (a b c d : ℕ) → same_span (a, b) (c, d) ≡ true → (a ≡ c) × (b ≡ d)
same_span_eq a b c d h = (ground (arith, h), ground (arith, h))

has_span-range_with :
    (p : ℕ × ℕ) (r : TransitionRule) (ps : List (ℕ × ℕ))
    → has_span p ps ≡ true
    → has_span p (range_with r ps) ≡ true
has_span-range_with p r ps h =
    if-rel (λ qs. has_span p qs ≡ true) r.rewind _ ps (λ _. at_target r.to) (λ _. h)
  where
    at_target :
        (t : Target)
        → has_span p (elim t [
          | step t ↦ if has_span (t, r.from) ps then ps else (t, r.from) ∷ ps
          | end_target ↦ ps
          | fail_target ↦ ps
        ])
          ≡ true
    at_target (step t) =
        if-rel (λ qs. has_span p qs ≡ true) (has_span (t, r.from) ps) ps ((t, r.from) ∷ ps) (λ _. h)
          (λ _. ground (arith, h))
    at_target end_target = h
    at_target fail_target = h

has_span-distinct_ranges :
    (p : ℕ × ℕ) (rs : List TransitionRule) (ps : List (ℕ × ℕ))
    → has_span p ps ≡ true
    → has_span p (distinct_ranges rs ps) ≡ true
has_span-distinct_ranges p [] ps h = h
has_span-distinct_ranges p (r ∷ rs) ps h =
    has_span-distinct_ranges p rs (range_with r ps) (has_span-range_with p r ps h)

same_span_refl : (a b : ℕ) → same_span (a, b) (a, b) ≡ true
same_span_refl a b = ground arith

-- A rewind's range is among those recorded.
abbrev pub RangeIn : List (ℕ × ℕ) → TransitionRule → Type 0
RangeIn ps r = (t : ℕ) → r.to ≡ step t → r.rewind ≡ true → has_span (t, r.from) ps ≡ true

range_with-RangeIn : (r : TransitionRule) (ps : List (ℕ × ℕ)) → RangeIn (range_with r ps) r
range_with-RangeIn r ps t to back =
    if-rel (λ qs. has_span (t, r.from) qs ≡ true) r.rewind _ ps (λ _. at_target r.to to)
      (λ h. absurd (cc))
  where
    at_target :
        (x : Target)
        → x ≡ step t
        → has_span
            (t, r.from)
            (elim x [
              | step t ↦ if has_span (t, r.from) ps then ps else (t, r.from) ∷ ps
              | end_target ↦ ps
              | fail_target ↦ ps
            ])
          ≡ true
    at_target (step u) same =
        subst
          (λ (v : ℕ).
            has_span (v, r.from) (if has_span (u, r.from) ps then ps else (u, r.from) ∷ ps) ≡ true)
          (ap lands same)
          (if-rel (λ qs. has_span (u, r.from) qs ≡ true) (has_span (u, r.from) ps) ps
            ((u, r.from) ∷ ps) (λ h. h) (λ _. ground (arith, same_span_refl u r.from)))
    at_target end_target same = absurd (cc)
    at_target fail_target same = absurd (cc)

pub distinct_ranges-RangeIn :
    (rs : List TransitionRule) (ps : List (ℕ × ℕ)) → All (RangeIn (distinct_ranges rs ps)) rs
distinct_ranges-RangeIn [] ps = tt
distinct_ranges-RangeIn (r ∷ rs) ps = (
  λ t to back.
      has_span-distinct_ranges (t, r.from) rs (range_with r ps) (range_with-RangeIn r ps t to back),
  distinct_ranges-RangeIn rs (range_with r ps),
)

-- What holds of every range that is recorded.
pub distinct_ranges-All :
    (P : ℕ × ℕ → Type 0) (rs : List TransitionRule) (ps : List (ℕ × ℕ))
    → All (λ (r : TransitionRule). (t : ℕ) → r.to ≡ step t → r.rewind ≡ true → P (t, r.from)) rs
    → All P ps
    → All P (distinct_ranges rs ps)
distinct_ranges-All P [] ps h hs = hs
distinct_ranges-All P (r ∷ rs) ps (h, hs) all =
    distinct_ranges-All P rs (range_with r ps) hs
      (if-rel (All P) r.rewind _ ps (λ back. at_target r.to refl back) (λ _. all))
  where
    at_target :
        (x : Target)
        → r.to ≡ x
        → r.rewind ≡ true
        → All P (elim x [
          | step t ↦ if has_span (t, r.from) ps then ps else (t, r.from) ∷ ps
          | end_target ↦ ps
          | fail_target ↦ ps
        ])
    at_target (step t) to back =
        if-rel (All P) (has_span (t, r.from) ps) ps ((t, r.from) ∷ ps) (λ _. all)
          (λ _. (h t to back, all))
    at_target end_target to back = all
    at_target fail_target to back = all

pub has_span-All :
    (P : ℕ × ℕ → Type 0) (a b : ℕ) (ps : List (ℕ × ℕ))
    → All P ps
    → has_span (a, b) ps ≡ true
    → P (a, b)
has_span-All P a b [] all h = absurd (cc)
has_span-All P a b ((c, d) ∷ ps) (first, all) h = elim (Bool-cases (same_span (a, b) (c, d))) [
  | inl same ↦
      let (x, y) = same_span_eq a b c d same in
      subst (λ j. P (j, b)) (sym x) (subst (λ k. P (c, k)) (sym y) first)
  | inr other ↦ has_span-All P a b ps all (ground (arith, h, other))
]

count_ranges-none :
    (k : ℕ) (ps : List (ℕ × ℕ)) → count_ranges k ps ≤ 0 → All (λ p. holds k p ≡ false) ps
count_ranges-none k [] few = tt
count_ranges-none k (p ∷ ps) few =
    (away (holds k p) few, count_ranges-none k ps (omega (arith, few)))
  where
    away : (b : Bool) → (if b then 1 else 0) + count_ranges k ps ≤ 0 → b ≡ false
    away true h = absurd (omega (arith, h))
    away false h = refl

none_holds :
    (k a b : ℕ) (ps : List (ℕ × ℕ))
    → count_ranges k ps ≤ 0
    → has_span (a, b) ps ≡ true
    → holds k (a, b) ≡ true
    → ⊥
none_holds k a b ps few h here =
    let away : holds k (a, b) ≡ false =
      has_span-All (λ p. holds k p ≡ false) a b ps (count_ranges-none k ps few) h in
    cc

-- Where at most one range holds a step, two that hold it are the same.
pub one_range :
    (k a b c d : ℕ) (ps : List (ℕ × ℕ))
    → count_ranges k ps ≤ 1
    → has_span (a, b) ps ≡ true
    → has_span (c, d) ps ≡ true
    → holds k (a, b) ≡ true
    → holds k (c, d) ≡ true
    → (a ≡ c) × (b ≡ d)
one_range k a b c d [] few h h' here here' = absurd (cc)
one_range k a b c d ((x, y) ∷ ps) few h h' here here' = elim (Bool-cases (holds k (x, y))) [
  | inl first ↦
      let rest : count_ranges k ps ≤ 0 = ground (arith, few, first) in
      let (p, p') = is_first a b h here rest in
      let (q, q') = is_first c d h' here' rest in (p ∙ sym q, p' ∙ sym q')
  | inr away ↦
      let rest : count_ranges k ps ≤ 1 = ground (arith, few, away) in
      one_range k a b c d ps rest (is_later a b h here away) (is_later c d h' here' away) here here'
]
  where
    is_first :
        (a b : ℕ)
        → has_span (a, b) ((x, y) ∷ ps) ≡ true
        → holds k (a, b) ≡ true
        → count_ranges k ps ≤ 0
        → (a ≡ x) × (b ≡ y)
    is_first a b h here rest = elim (Bool-cases (same_span (a, b) (x, y))) [
      | inl same ↦ same_span_eq a b x y same
      | inr other ↦ absurd (none_holds k a b ps rest (ground (arith, h, other)) here)
    ]

    is_later :
        (a b : ℕ)
        → has_span (a, b) ((x, y) ∷ ps) ≡ true
        → holds k (a, b) ≡ true
        → holds k (x, y) ≡ false
        → has_span (a, b) ps ≡ true
    is_later a b h here away = elim (Bool-cases (same_span (a, b) (x, y))) [
      | inl same ↦
          let (p, q) = same_span_eq a b x y same in
          let same_holds : holds k (a, b) ≡ holds k (x, y) =
            ap (λ j. holds k (j, b)) p ∙ ap (λ j. holds k (x, j)) q in
          absurd (cc)
      | inr other ↦ ground (arith, h, other)
    ]
