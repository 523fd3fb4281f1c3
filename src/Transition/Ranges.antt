-- ===== src/Transition/Ranges.antt =====
-- pipeline_transition.go: the difference array of the ranges of rewinds.
use gepago.Base.{
  ℕ, ◌+◌, ◌≡◌, refl, sym, ap, ◌∙◌, Bool, true, false, not, ◌&&◌, Option, none, some, List, [], ◌∷◌,
  All, if-rel, ltb, leb, if◌then◌else◌, arith,
}
use gepago.Base.Int.{ℤ, pos, negsuc, ◌+ℤ◌}
use gepago.Transition.Defs.{
  Target, step, end_target, fail_target, TransitionRule, TransitionFacts, skip, mark_to, mark,
  cover_span, cover, record_rule, record_rules, set_at, add_at, has_span,
}
use gepago.Transition.Prefix.{sum_to, sum_to-add_at, add_assoc, add_comm}
use gepago.Transition.Skipped.{one_if, bits, one_more}

-- What `mark` leaves alone.
pub record Kept (f g : TransitionFacts) : Type 0 where
  pub ranges : g.ranges ≡ f.ranges
  pub spans : g.spans ≡ f.spans
  pub covered : g.covered ≡ f.covered

kept : (f : TransitionFacts) → Kept f f
kept f = record { ranges = refl; spans = refl; covered = refl }

mark_to-Kept : (r : TransitionRule) (to : ℕ) (f : TransitionFacts) → Kept f (mark_to r to f)
unfolding mark_to skip
mark_to-Kept r to f =
    let g = skip (r.from + 1) to f in
    let same : Kept f g =
      if-rel (Kept f) (ltb (r.from + 1) to) _ f
        (λ _. record { ranges = refl; spans = refl; covered = refl }) (λ _. kept f) in
    if-rel (Kept f) r.on_error _ _ (λ _. first same (g.on_error_by r.from))
      (λ _.
        if-rel (Kept f) (g.closed r.from) _ _ (λ _. same)
          (λ _. record { ranges = same.ranges; spans = same.spans; covered = same.covered }))
  where
    first :
        Kept f (skip (r.from + 1) to f)
        → (o : Option ℕ)
        → Kept f (elim o [
          | some _ ↦ skip (r.from + 1) to f
          | none ↦ record (skip (r.from + 1) to f) {
            on_error_by = set_at (skip (r.from + 1) to f).on_error_by r.from (some r.index);
          }
        ])
    first same none = record { ranges = same.ranges; spans = same.spans; covered = same.covered }
    first same (some e) = same

pub mark-Kept : (r : TransitionRule) (n : ℕ) (f : TransitionFacts) → Kept f (mark r n f)
unfolding mark
mark-Kept r n f = by_target r.to
  where
    by_target :
        (t : Target)
        → Kept f (elim t [
          | fail_target ↦
              if not r.on_error && not (f.closed r.from)
              then record f { closed = set_at f.closed r.from r.always }
              else f
          | end_target ↦ mark_to r n f
          | step t ↦ mark_to r t f
        ])
    by_target fail_target =
        if-rel (Kept f) (not r.on_error && not (f.closed r.from)) _ f
          (λ _. record { ranges = refl; spans = refl; covered = refl }) (λ _. kept f)
    by_target end_target = mark_to-Kept r n f
    by_target (step t) = mark_to-Kept r t f

-- The range holds the step.
abbrev pub holds : ℕ → ℕ × ℕ → Bool
holds i (start, end) = leb start i && leb i end

-- The ranges that hold a step, counted.
abbrev pub count_ranges : ℕ → List (ℕ × ℕ) → ℕ
count_ranges i [] = 0
count_ranges i (p ∷ ps) = (if holds i p then 1 else 0) + count_ranges i ps

-- The range of a rule that rewinds, put on the ranges unless it is there.
abbrev pub range_with : TransitionRule → List (ℕ × ℕ) → List (ℕ × ℕ)
range_with r ps =
    if r.rewind
    then (elim r.to [
      | step t ↦ if has_span (t, r.from) ps then ps else (t, r.from) ∷ ps
      | end_target ↦ ps
      | fail_target ↦ ps
    ])
    else ps

-- The distinct ranges of the rules that rewind.
abbrev pub distinct_ranges : List TransitionRule → List (ℕ × ℕ) → List (ℕ × ℕ)
distinct_ranges [] ps = ps
distinct_ranges (r ∷ rs) ps = distinct_ranges rs (range_with r ps)

-- A rule to an earlier step, or to the same, is a rewind, and no other rule is.
abbrev pub Compiled : TransitionRule → Type 0
Compiled r =
    r.rewind ≡ (elim r.to [ step t ↦ leb t r.from | end_target ↦ false | fail_target ↦ false ])

-- The bounds and the ranges that are recorded agree at a step.
abbrev pub Agrees : ℕ → TransitionFacts → Type 0
Agrees i f = sum_to f.ranges (pos 0) i ≡ pos (count_ranges i f.spans)

cover_span-Agrees :
    (i t from : ℕ) (f : TransitionFacts)
    → leb t from ≡ true
    → Agrees i f
    → Agrees i (cover_span t from f)
unfolding cover_span
cover_span-Agrees i t from f back h =
    if-rel (Agrees i) (has_span (t, from) f.spans) f _ (λ _. h)
      (λ _.
        sum_to-add_at (add_at f.ranges t (pos 1)) (from + 1) (negsuc 0) (pos 0) i
        ∙ ap (λ x. x +ℤ (if leb (from + 1) i then negsuc 0 else pos 0))
            (sum_to-add_at f.ranges t (pos 1) (pos 0) i)
        ∙ sym (add_assoc total (one_if (leb t i)) (if leb (from + 1) i then negsuc 0 else pos 0))
        ∙ ap (λ x. total +ℤ x) (bits (leb t i) (leb (from + 1) i) later ∙ ap one_if same)
        ∙ ap (λ x. x +ℤ one_if (holds i (t, from))) h
        ∙ add_comm (pos (count_ranges i f.spans)) (one_if (holds i (t, from)))
        ∙ one_more (holds i (t, from)) (count_ranges i f.spans))
  where
    total : ℤ
    total = sum_to f.ranges (pos 0) i

    later : (not (leb t i) && leb (from + 1) i) ≡ false
    later = ground (arith, back)

    same : (leb t i && not (leb (from + 1) i)) ≡ holds i (t, from)
    same = ground arith

Kept-Agrees : {f g : TransitionFacts} (i : ℕ) → Kept f g → Agrees i f → Agrees i g
Kept-Agrees i k h =
    ap (λ a. sum_to a (pos 0) i) k.ranges ∙ h ∙ ap (λ ps. pos (count_ranges i ps)) (sym k.spans)

record_rule-Agrees :
    (r : TransitionRule) (n i : ℕ) (f : TransitionFacts)
    → Compiled r
    → Agrees i f
    → Agrees i (record_rule r n f)
unfolding record_rule cover
record_rule-Agrees r n i f compiled h = by_kind r.rewind compiled
  where
    back : Target → Bool
    back t = elim t [ step t ↦ leb t r.from | end_target ↦ false | fail_target ↦ false ]

    rewinding :
        (t : Target)
        → true ≡ back t
        → Agrees i (elim t [ step t ↦ cover r t f | end_target ↦ f | fail_target ↦ f ])
    rewinding (step t) e = cover_span-Agrees i t r.from f (sym e) h
    rewinding end_target e = h
    rewinding fail_target e = h

    by_kind :
        (b : Bool)
        → b ≡ back r.to
        → Agrees i (
            if b
            then (elim r.to [ step t ↦ cover r t f | end_target ↦ f | fail_target ↦ f ])
            else mark r n f)
    by_kind true e = rewinding r.to e
    by_kind false e = Kept-Agrees i (mark-Kept r n f) h

pub record_rules-Agrees :
    (rs : List TransitionRule) (n i : ℕ) (f : TransitionFacts)
    → All Compiled rs
    → Agrees i f
    → Agrees i (record_rules rs n f)
unfolding record_rules
record_rules-Agrees [] n i f compiled h = h
record_rules-Agrees (r ∷ rs) n i f (compiled, rest) h =
    record_rules-Agrees rs n i (record_rule r n f) rest (record_rule-Agrees r n i f compiled h)
