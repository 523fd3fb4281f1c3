-- ===== src/Transition/Skipped.antt =====
-- pipeline_transition.go: the difference array of the rules that skip over steps.
use gepago.Base.{
  if-rel, ℕ, zero, suc, ◌+◌, ◌≡◌, refl, sym, ap, ◌∙◌, Bool, true, false, not, ◌&&◌, Option, none,
  some, List, [], ◌∷◌, arith, leb, ltb, if◌then◌else◌,
}
use gepago.Base.Int.{ℤ, pos, negsuc, ◌+ℤ◌}
use gepago.Transition.Defs.{
  Target, step, end_target, fail_target, TransitionRule, TransitionFacts, skips, skip, mark_to,
  mark, cover_span, cover, record_rule, record_rules, enter, enter_through, add_at, set_at,
  has_span,
}
use gepago.Transition.Prefix.{sum_to, sum_to-add_at, add_zero, add_assoc}

-- The pass over steps sums the array.
pub skipping-enter_through :
    (i : ℕ) (f : TransitionFacts)
    → ((enter_through i f).skipping ≡ sum_to f.skips_at f.skipping i)
      × ((enter_through i f).skips_at ≡ f.skips_at)
      × ((enter_through i f).on_error_by ≡ f.on_error_by)
unfolding enter enter_through
skipping-enter_through zero f = (refl, refl, refl)
skipping-enter_through (suc i) f =
    let (s, a, e) = skipping-enter_through i f in
    (
      ap (λ x. x +ℤ (enter_through i f).skips_at (suc i)) s
          ∙ ap (λ a. sum_to f.skips_at f.skipping i +ℤ a (suc i)) a,
      a,
      e,
    )

-- One, for a rule that skips over the step.
abbrev pub one_if : Bool → ℤ
one_if b = if b then pos 1 else pos 0

abbrev between : ℕ → ℕ → ℕ → Bool
between a i b = ltb a i && ltb i b

pub bits :
    (p q : Bool)
    → (not p && q) ≡ false
    → one_if p +ℤ (if q then negsuc 0 else pos 0) ≡ one_if (p && not q)
unfolding ◌+ℤ◌
bits true true h = refl
bits true false h = refl
bits false true h = absurd cc
bits false false h = refl

pub step_bits :
    (a b i : ℕ)
    → ltb (a + 1) b ≡ true
    → one_if (leb (a + 1) i) +ℤ (if leb b i then negsuc 0 else pos 0) ≡ one_if (between a i b)
step_bits a b i h =
    let later : (not (leb (a + 1) i) && leb b i) ≡ false = ground (arith, h) in
    let same : (leb (a + 1) i && not (leb b i)) ≡ between a i b = ground arith in
    bits (leb (a + 1) i) (leb b i) later ∙ ap one_if same

sum_to-skip :
    (a b : ℕ) (f : TransitionFacts) (i : ℕ) (z : ℤ)
    → sum_to (skip (a + 1) b f).skips_at z i ≡ sum_to f.skips_at z i +ℤ one_if (between a i b)
unfolding skip
sum_to-skip a b f i z =
    if-rel
      (λ (g : TransitionFacts).
        sum_to g.skips_at z i ≡ sum_to f.skips_at z i +ℤ one_if (between a i b))
      (ltb (a + 1) b) _ f
      (λ h.
        sum_to-add_at (add_at f.skips_at (a + 1) (pos 1)) b (negsuc 0) z i
        ∙ ap (λ x. x +ℤ (if leb b i then negsuc 0 else pos 0))
            (sum_to-add_at f.skips_at (a + 1) (pos 1) z i)
        ∙ sym (
            add_assoc (sum_to f.skips_at z i) (one_if (leb (a + 1) i))
              (if leb b i then negsuc 0 else pos 0))
        ∙ ap (λ x. sum_to f.skips_at z i +ℤ x) (step_bits a b i h))
      (λ h.
        let none_between : between a i b ≡ false = ground (arith, h) in
        sym (add_zero (sum_to f.skips_at z i))
        ∙ ap (λ b. sum_to f.skips_at z i +ℤ one_if b) (sym none_between))

mark_to-skips :
    (r : TransitionRule) (to : ℕ) (f : TransitionFacts)
    → (mark_to r to f).skips_at ≡ (skip (r.from + 1) to f).skips_at
unfolding mark_to
mark_to-skips r to f =
    let g = skip (r.from + 1) to f in
    let P : TransitionFacts → Type 0 = λ h. h.skips_at ≡ g.skips_at in
    if-rel P r.on_error _ _ (λ _. first (g.on_error_by r.from))
      (λ _. if-rel P (g.closed r.from) _ _ (λ _. refl) (λ _. refl))
  where
    first :
        (o : Option ℕ)
        → (let g : TransitionFacts = elim o [
          | some _ ↦ skip (r.from + 1) to f
          | none ↦ record (skip (r.from + 1) to f) {
            on_error_by = set_at (skip (r.from + 1) to f).on_error_by r.from (some r.index);
          }
        ] in
            g.skips_at)
          ≡ (skip (r.from + 1) to f).skips_at
    first none = refl
    first (some e) = refl

sum_to-mark :
    (r : TransitionRule) (n : ℕ) (f : TransitionFacts) (i : ℕ) (z : ℤ)
    → sum_to (mark r n f).skips_at z i ≡ sum_to f.skips_at z i +ℤ one_if (skips r i n)
unfolding mark skips
sum_to-mark r n f i z = by_target r.to
  where
    by_target :
        (t : Target)
        → (let g : TransitionFacts = elim t [
          | fail_target ↦
              if not r.on_error && not (f.closed r.from)
              then record f { closed = set_at f.closed r.from r.always }
              else f
          | end_target ↦ mark_to r n f
          | step t ↦ mark_to r t f
        ] in
            sum_to g.skips_at z i)
          ≡ sum_to f.skips_at z i
            +ℤ one_if (elim t [
              | fail_target ↦ false
              | end_target ↦ ltb r.from i && ltb i n
              | step t ↦ ltb r.from i && ltb i t
            ])
    by_target fail_target =
        if-rel (λ (g : TransitionFacts). sum_to g.skips_at z i ≡ sum_to f.skips_at z i +ℤ pos 0)
          (not r.on_error && not (f.closed r.from)) _ f
          (λ _. sym (add_zero (sum_to f.skips_at z i)))
          (λ _. sym (add_zero (sum_to f.skips_at z i)))
    by_target end_target = ap (λ a. sum_to a z i) (mark_to-skips r n f) ∙ sum_to-skip r.from n f i z
    by_target (step t) = ap (λ a. sum_to a z i) (mark_to-skips r t f) ∙ sum_to-skip r.from t f i z

cover-skips :
    (r : TransitionRule) (to : ℕ) (f : TransitionFacts) → (cover r to f).skips_at ≡ f.skips_at
unfolding cover cover_span
cover-skips r to f =
    if-rel (λ (g : TransitionFacts). g.skips_at ≡ f.skips_at) (has_span (to, r.from) f.spans) f _
      (λ _. refl) (λ _. refl)

-- A rule that skips over a step: one that is not a rewind.
abbrev skips_over : TransitionRule → ℕ → ℕ → Bool
skips_over r i n = not r.rewind && skips r i n

sum_to-record_rule :
    (r : TransitionRule) (n : ℕ) (f : TransitionFacts) (i : ℕ) (z : ℤ)
    → sum_to (record_rule r n f).skips_at z i ≡ sum_to f.skips_at z i +ℤ one_if (skips_over r i n)
unfolding record_rule
sum_to-record_rule r n f i z = by_kind r.rewind
  where
    unchanged :
        (t : Target)
        → (let g : TransitionFacts = elim t [
          | step t ↦ cover r t f
          | end_target ↦ f
          | fail_target ↦ f
        ] in
            sum_to g.skips_at z i)
          ≡ sum_to f.skips_at z i +ℤ pos 0
    unchanged (step t) =
        ap (λ a. sum_to a z i) (cover-skips r t f) ∙ sym (add_zero (sum_to f.skips_at z i))
    unchanged end_target = sym (add_zero (sum_to f.skips_at z i))
    unchanged fail_target = sym (add_zero (sum_to f.skips_at z i))

    by_kind :
        (b : Bool)
        → (let g : TransitionFacts =
              if b
              then (elim r.to [ step t ↦ cover r t f | end_target ↦ f | fail_target ↦ f ])
              else mark r n f in
            sum_to g.skips_at z i)
          ≡ sum_to f.skips_at z i +ℤ one_if (not b && skips r i n)
    by_kind true = unchanged r.to
    by_kind false = sum_to-mark r n f i z

-- The rules that skip over a step, counted.
abbrev pub count_skips : List TransitionRule → ℕ → ℕ → ℕ
count_skips [] i n = 0
count_skips (r ∷ rs) i n = (if not r.rewind && skips r i n then 1 else 0) + count_skips rs i n

pub one_more : (b : Bool) (k : ℕ) → one_if b +ℤ pos k ≡ pos ((if b then 1 else 0) + k)
unfolding ◌+ℤ◌
one_more true k = ground arith
one_more false k = ground arith

pub sum_to-record_rules :
    (rs : List TransitionRule) (n : ℕ) (f : TransitionFacts) (i : ℕ) (z : ℤ)
    → sum_to (record_rules rs n f).skips_at z i ≡ sum_to f.skips_at z i +ℤ pos (count_skips rs i n)
unfolding record_rules
sum_to-record_rules [] n f i z = sym (add_zero (sum_to f.skips_at z i))
sum_to-record_rules (r ∷ rs) n f i z =
    sum_to-record_rules rs n (record_rule r n f) i z
    ∙ ap (λ x. x +ℤ pos (count_skips rs i n)) (sum_to-record_rule r n f i z)
    ∙ sym (add_assoc (sum_to f.skips_at z i) (one_if (skips_over r i n)) (pos (count_skips rs i n)))
    ∙ ap (λ x. sum_to f.skips_at z i +ℤ x) (one_more (skips_over r i n) (count_skips rs i n))

pub sum_to-zeros : (i : ℕ) → sum_to (λ _. pos 0) (pos 0) i ≡ pos 0
sum_to-zeros zero = add_zero (pos 0)
sum_to-zeros (suc i) = add_zero _ ∙ sum_to-zeros i
