-- ===== src/Transition/Defs.antt =====
-- pipeline_transition.go: the rules of transitions and the facts that Build's two passes derive. An
-- array of Go is a function of its index, since every index the code uses is in range.
use gepago.Base.{
  ℕ, zero, suc, ◌+◌, Bool, true, false, not, ◌&&◌, ◌||◌, Option, none, some, List, [], ◌∷◌, ltb,
  ◌==◌, if◌then◌else◌,
}
use gepago.Base.Int.{ℤ, pos, negsuc, ◌+ℤ◌, ltb_ℤ, leb_ℤ}

-- `transitionRule.to`: a step, `endTarget` or `failTarget`.
pub data Target : Type 0 where
  step : ℕ → Target
  end_target fail_target : Target

-- `transitionRule`. `always` is a `when` that is nil, and `amends` an `amend` that is not.
pub record TransitionRule : Type 0 where
  pub index : ℕ
  pub from : ℕ
  pub to : Target
  pub rewind : Bool
  pub on_error : Bool
  pub always : Bool
  pub amends : Bool

-- `skips`
unfoldable pub skips : TransitionRule → ℕ → ℕ → Bool
skips r i n = elim r.to [
  | fail_target ↦ false
  | end_target ↦ ltb r.from i && ltb i n
  | step t ↦ ltb r.from i && ltb i t
]

-- `transitionFacts`, its counter `work` and the keys of steps apart. `none` stands for -1 in
-- `on_error_by` and for `math.MaxInt` in `success_min`.
pub record TransitionFacts : Type 0 where
  pub skips_at : ℕ → ℤ
  pub ranges : ℕ → ℤ
  pub spans : List (ℕ × ℕ)
  pub range_at : ℕ → Option (ℕ × ℕ)
  pub on_error_by : ℕ → Option ℕ
  pub success_min : ℕ → Option ℕ
  pub closed : ℕ → Bool
  pub target : ℕ → Bool
  pub amend_target : ℕ → Bool
  pub skipping : ℤ
  pub covered : ℤ
  pub current : Option (ℕ × ℕ)
  pub rewinds : ℕ

-- `a[i] = v`
abbrev pub set_at {ℓ} : {A : Type ℓ} → (ℕ → A) → ℕ → A → ℕ → A
set_at a i v j = if i == j then v else a j

-- `a[i] += v`
abbrev pub add_at : (ℕ → ℤ) → ℕ → ℤ → ℕ → ℤ
add_at a i v = set_at a i (a i +ℤ v)

-- `newTransitionFacts`
abbrev pub new_transition_facts : TransitionFacts
new_transition_facts = record {
  skips_at = λ i. pos 0;
  ranges = λ i. pos 0;
  spans = [];
  range_at = λ i. none;
  on_error_by = λ i. none;
  success_min = λ i. none;
  closed = λ i. false;
  target = λ i. false;
  amend_target = λ i. false;
  skipping = pos 0;
  covered = pos 0;
  current = none;
  rewinds = 0;
}

-- `skip`
unfoldable pub skip : ℕ → ℕ → TransitionFacts → TransitionFacts
skip start end f =
    if ltb start end
    then record f { skips_at = add_at (add_at f.skips_at start (pos 1)) end (negsuc 0) }
    else f

-- `min` with `math.MaxInt`
abbrev pub min_with : Option ℕ → ℕ → ℕ
min_with none b = b
min_with (some a) b = if ltb b a then b else a

-- The part of `mark` after its switch, with the index that the rule continues the run at.
unfoldable pub mark_to : TransitionRule → ℕ → TransitionFacts → TransitionFacts
unfolding skip
mark_to r to f =
    let g = skip (r.from + 1) to f in
    if r.on_error
    then (elim (g.on_error_by r.from) [
      | some _ ↦ g
      | none ↦ record g { on_error_by = set_at g.on_error_by r.from (some r.index) }
    ])
    else if g.closed r.from
    then g
    else record g {
      success_min = set_at g.success_min r.from (some (min_with (g.success_min r.from) to));
      closed = set_at g.closed r.from r.always;
    }

-- `mark`
unfoldable pub mark : TransitionRule → ℕ → TransitionFacts → TransitionFacts
unfolding mark_to
mark r n f = elim r.to [
  | fail_target ↦
      if not r.on_error && not (f.closed r.from)
      then record f { closed = set_at f.closed r.from r.always }
      else f
  | end_target ↦ mark_to r n f
  | step t ↦ mark_to r t f
]

abbrev pub same_span : ℕ × ℕ → ℕ × ℕ → Bool
same_span (a, b) (c, d) = a == c && b == d

abbrev pub has_span : ℕ × ℕ → List (ℕ × ℕ) → Bool
has_span p [] = false
has_span p (q ∷ qs) = same_span p q || has_span p qs

-- The part of `cover` that records a range the first time a rewind has it.
unfoldable pub cover_span : ℕ → ℕ → TransitionFacts → TransitionFacts
cover_span to from f = if has_span (to, from) f.spans then f else record f {
  spans = (to, from) ∷ f.spans;
  ranges = add_at (add_at f.ranges to (pos 1)) (from + 1) (negsuc 0);
  range_at =
      set_at f.range_at to (elim (f.range_at to) [ none ↦ some (to, from) | some r ↦ some r ]);
}

-- `cover`, for a rule that rewinds to this step.
unfoldable pub cover : TransitionRule → ℕ → TransitionFacts → TransitionFacts
unfolding cover_span
cover r to f =
    let g = cover_span to r.from f in
    record g {
      target = set_at g.target to true;
      amend_target = if r.amends then set_at g.amend_target to true else g.amend_target;
    }

-- What `checkTransitions` records of one rule; a rule that rewinds names a step.
unfoldable pub record_rule : TransitionRule → ℕ → TransitionFacts → TransitionFacts
unfolding mark cover
record_rule r n f =
    if r.rewind
    then (elim r.to [ step t ↦ cover r t f | end_target ↦ f | fail_target ↦ f ])
    else mark r n f

-- The loop over transitions of `checkTransitions`, over the rules it has compiled.
unfoldable pub record_rules : List TransitionRule → ℕ → TransitionFacts → TransitionFacts
unfolding record_rule
record_rules [] n f = f
record_rules (r ∷ rs) n f = record_rules rs n (record_rule r n f)

-- `enter`: the facts at a step, and whether at most one distinct range holds it.
unfoldable pub enter : ℕ → TransitionFacts → TransitionFacts
enter i f =
    let past : Option (ℕ × ℕ) = elim f.current [
      | none ↦ none
      | some (start, end) ↦ if ltb end i then none else some (start, end)
    ] in
    record f {
      skipping = f.skipping +ℤ f.skips_at i;
      covered = f.covered +ℤ f.ranges i;
      current = elim (f.range_at i) [ some r ↦ some r | none ↦ past ];
      rewinds = if f.target i then f.rewinds + 1 else f.rewinds;
    }

unfoldable pub allows : TransitionFacts → Bool
allows f = leb_ℤ f.covered (pos 1)

-- The pass over steps, from the first through this one.
unfoldable pub enter_through : ℕ → TransitionFacts → TransitionFacts
unfolding enter
enter_through zero f = enter 0 f
enter_through (suc i) f = enter (suc i) (enter_through i f)

-- `reach`
unfoldable pub reach : TransitionFacts → ℕ → Option ℕ
reach f i = if f.closed i then f.success_min i else some (min_with (f.success_min i) (i + 1))

-- `mayNotWrite`
unfoldable pub may_not_write : TransitionFacts → ℕ → Bool
may_not_write f i =
    ltb_ℤ (pos 0) f.skipping || (elim (f.on_error_by i) [ none ↦ false | some _ ↦ true ])
