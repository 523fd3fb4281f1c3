-- ===== src/Transition/Writes.antt =====
-- `mayNotWrite` of pipeline_transition.go.
use gepago.Base.{
  ℕ, ◌+◌, ◌≡◌, refl, sym, ap, ◌∙◌, Bool, true, false, not, ◌&&◌, ◌||◌, Option, none, some, List, [],
  ◌∷◌, if-rel, subst, Bool-cases, inl, inr, ltb, ◌==◌, if◌then◌else◌, arith,
}
use gepago.Base.Int.{pos, ltb_ℤ}
use gepago.Transition.Defs.{
  Target, step, end_target, fail_target, TransitionRule, TransitionFacts, skips, skip, mark_to,
  mark, cover_span, cover, record_rule, record_rules, may_not_write, new_transition_facts, set_at,
  has_span, min_with,
}
use gepago.Transition.Skipped.{skipping-enter_through, count_skips}
use gepago.Transition.Counted.{facts_at, skipping-count}

abbrev is_some : Option ℕ → Bool
is_some none = false
is_some (some n) = true

abbrev goes_on : Target → Bool
goes_on fail_target = false
goes_on end_target = true
goes_on (step t) = true

-- A rule that takes the step, where it failed, to a later step or to the end.
abbrev pub takes_forward : TransitionRule → ℕ → Bool
takes_forward r i = not r.rewind && (goes_on r.to && (r.on_error && r.from == i))

abbrev pub any_forward : List TransitionRule → ℕ → Bool
any_forward [] i = false
any_forward (r ∷ rs) i = takes_forward r i || any_forward rs i

abbrev pub any_skips : List TransitionRule → ℕ → ℕ → Bool
any_skips [] i n = false
any_skips (r ∷ rs) i n = (not r.rewind && skips r i n) || any_skips rs i n

abbrev marked : ℕ → TransitionFacts → Bool
marked i f = is_some (f.on_error_by i)

marked-skip : (a b i : ℕ) (f : TransitionFacts) → (skip a b f).on_error_by ≡ f.on_error_by
unfolding skip
marked-skip a b i f =
    if-rel (λ (g : TransitionFacts). g.on_error_by ≡ f.on_error_by) (ltb a b) _ f (λ _. refl)
      (λ _. refl)

or_false : (b : Bool) → b ≡ (b || false)
or_false true = refl
or_false false = refl

set_marks : (b : Bool) (n : ℕ) (x : Option ℕ) → is_some (if b then some n else x) ≡ (is_some x || b)
set_marks true n none = refl
set_marks true n (some m) = refl
set_marks false n x = or_false (is_some x)

marked-mark_to :
    (r : TransitionRule) (to i : ℕ) (f : TransitionFacts)
    → marked i (mark_to r to f) ≡ (marked i f || (r.on_error && r.from == i))
unfolding mark_to
marked-mark_to r to i f = by_error r.on_error
  where
    g : TransitionFacts
    g = skip (r.from + 1) to f

    same : marked i g ≡ marked i f
    same = ap (λ a. is_some (a i)) (marked-skip (r.from + 1) to i f)

    first :
        (o : Option ℕ)
        → g.on_error_by r.from ≡ o
        → (let h : TransitionFacts = elim o [
          | some _ ↦ g
          | none ↦ record g { on_error_by = set_at g.on_error_by r.from (some r.index) }
        ] in
            marked i h)
          ≡ (marked i f || (r.from == i))
    first none e =
        set_marks (r.from == i) r.index (g.on_error_by i) ∙ ap (λ b. b || (r.from == i)) same
    first (some n) e = elim (Bool-cases (r.from == i)) [
      | inl here ↦
          let at : r.from ≡ i = ground (arith, here) in
          let there : marked i g ≡ true =
            subst (λ j. is_some (g.on_error_by j) ≡ true) at (ap is_some e) in
          there ∙ sym (ap (λ b. b || (r.from == i)) (sym same ∙ there))
      | inr away ↦ same ∙ or_false (marked i f) ∙ ap (λ b. marked i f || b) (sym away)
    ]

    by_error :
        (b : Bool)
        → (let h : TransitionFacts =
              if b
              then (elim (g.on_error_by r.from) [
                | some _ ↦ g
                | none ↦ record g { on_error_by = set_at g.on_error_by r.from (some r.index) }
              ])
              else if g.closed r.from
              then g
              else record g {
                success_min =
                    set_at g.success_min r.from (some (min_with (g.success_min r.from) to));
                closed = set_at g.closed r.from r.always;
              } in
            marked i h)
          ≡ (marked i f || (b && (r.from == i)))
    by_error true = first (g.on_error_by r.from) refl
    by_error false =
        if-rel (λ (h : TransitionFacts). marked i h ≡ (marked i f || false)) (g.closed r.from) g _
          (λ _. same ∙ or_false (marked i f)) (λ _. same ∙ or_false (marked i f))

marked-mark :
    (r : TransitionRule) (n i : ℕ) (f : TransitionFacts)
    → marked i (mark r n f) ≡ (marked i f || (goes_on r.to && (r.on_error && r.from == i)))
unfolding mark
marked-mark r n i f = by_target r.to
  where
    by_target :
        (t : Target)
        → (let g : TransitionFacts = elim t [
          | fail_target ↦
              if not r.on_error && not (f.closed r.from)
              then record f { closed = set_at f.closed r.from r.always }
              else f
          | end_target ↦ mark_to r n f
          | step t ↦ mark_to r t f
        ] in
            marked i g)
          ≡ (marked i f || (goes_on t && (r.on_error && r.from == i)))
    by_target fail_target =
        if-rel (λ (g : TransitionFacts). marked i g ≡ (marked i f || false))
          (not r.on_error && not (f.closed r.from)) _ f (λ _. or_false (marked i f))
          (λ _. or_false (marked i f))
    by_target end_target = marked-mark_to r n i f
    by_target (step t) = marked-mark_to r t i f

marked-record_rule :
    (r : TransitionRule) (n i : ℕ) (f : TransitionFacts)
    → marked i (record_rule r n f) ≡ (marked i f || takes_forward r i)
unfolding record_rule cover cover_span
marked-record_rule r n i f = by_kind r.rewind
  where
    unchanged :
        (t : Target)
        → (let g : TransitionFacts = elim t [
          | step t ↦ cover r t f
          | end_target ↦ f
          | fail_target ↦ f
        ] in
            marked i g)
          ≡ (marked i f || false)
    unchanged (step t) =
        if-rel (λ (g : TransitionFacts). marked i g ≡ (marked i f || false))
          (has_span (t, r.from) f.spans) f _ (λ _. or_false (marked i f))
          (λ _. or_false (marked i f))
    unchanged end_target = or_false (marked i f)
    unchanged fail_target = or_false (marked i f)

    by_kind :
        (b : Bool)
        → (let g : TransitionFacts =
              if b
              then (elim r.to [ step t ↦ cover r t f | end_target ↦ f | fail_target ↦ f ])
              else mark r n f in
            marked i g)
          ≡ (marked i f || (not b && (goes_on r.to && (r.on_error && r.from == i))))
    by_kind true = unchanged r.to
    by_kind false = marked-mark r n i f

or_assoc : (a b c : Bool) → ((a || b) || c) ≡ (a || (b || c))
or_assoc true b c = refl
or_assoc false b c = refl

marked-record_rules :
    (rs : List TransitionRule) (n i : ℕ) (f : TransitionFacts)
    → marked i (record_rules rs n f) ≡ (marked i f || any_forward rs i)
unfolding record_rules
marked-record_rules [] n i f = or_false (marked i f)
marked-record_rules (r ∷ rs) n i f =
    marked-record_rules rs n i (record_rule r n f)
    ∙ ap (λ b. b || any_forward rs i) (marked-record_rule r n i f)
    ∙ or_assoc (marked i f) (takes_forward r i) (any_forward rs i)

one_more_count :
    (b c : Bool) (k : ℕ)
    → ltb_ℤ (pos 0) (pos k) ≡ c
    → ltb_ℤ (pos 0) (pos ((if b then 1 else 0) + k)) ≡ (b || c)
one_more_count true c k h = ground arith
one_more_count false c k h =
    let e : 0 + k ≡ k = omega arith in ap (λ m. ltb_ℤ (pos 0) (pos m)) e ∙ h

any_skips-count :
    (rs : List TransitionRule) (i n : ℕ)
    → ltb_ℤ (pos 0) (pos (count_skips rs i n)) ≡ any_skips rs i n
any_skips-count [] i n = refl
any_skips-count (r ∷ rs) i n =
    one_more_count (not r.rewind && skips r i n) (any_skips rs i n) (count_skips rs i n)
      (any_skips-count rs i n)

-- Build's pass over steps finds, at a step, that it may not write exactly when some rule skips over
-- it or some rule on its failure takes the run forward.
pub may_not_write-exact :
    (rs : List TransitionRule) (n i : ℕ)
    → may_not_write (facts_at rs n i) i ≡ (any_skips rs i n || any_forward rs i)
unfolding may_not_write
may_not_write-exact rs n i =
    let f = record_rules rs n new_transition_facts in
    let (_, _, errors) = skipping-enter_through i f in
    let skipped = ap (λ z. ltb_ℤ (pos 0) z) (skipping-count rs n i) ∙ any_skips-count rs i n in
    let forward =
      ap (λ a. is_some (a i)) errors ∙ marked-record_rules rs n i new_transition_facts in
    ap (λ b. b || is_some ((facts_at rs n i).on_error_by i)) skipped
    ∙ ap (λ b. any_skips rs i n || b) forward
