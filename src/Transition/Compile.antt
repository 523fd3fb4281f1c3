-- ===== src/Transition/Compile.antt =====
-- pipeline_transition.go: `checkTransitions` and `compileTransition`. The rules are compiled before the
-- table is filled; compiling reads only the MaxVisits of the table. Names are found in a map of the
-- steps, and a map that is ranged over by its sorted keys is the list of them.
use gepago.Base.{
  ℕ, zero, suc, ◌+◌, ◌-◌, String, Bool, true, false, not, ◌&&◌, ◌||◌, Option, none, some, List, [],
  ◌∷◌, leb, ltb, ◌==◌, str_eq, update, if◌then◌else◌,
}
use gepago.Base.Int.{ℤ, pos, pos_part, ltb_ℤ}
use gepago.Base.Action.{Out, ok, err}
use gepago.Transition.Defs.{Target, step, end_target, fail_target, TransitionRule}
use gepago.Flow.Data.{FlowTypes, Keys, Values, Hook, FlowRule, Node}
use gepago.Flow.Hooks.{lands}

-- The errors of `checkTransitions`, without their texts.
pub data TransitionError : Type 0 where
  visits_of_no_step named_twice unused_visits : String → TransitionError
  too_few_visits : String → ℤ → TransitionError
  from_no_step to_no_step : ℕ → String → TransitionError
  for_rewinds_only accept_on_error restore_on_error : ℕ → TransitionError
  needs_max_visits no_amendable_keys : ℕ → ℕ → TransitionError

-- The steps of a pipeline: `strings.TrimSpace`, the map of their names, and `amendableTypes` of each.
pub record NamedSteps : Type 0 where
  pub count : ℕ
  pub trim : String → String
  pub index : String → Option ℕ
  pub amendable_types : ℕ → Keys × Bool

module _ (T : FlowTypes) where
  -- `Transition`
  pub record Transition : Type 0 where
    pub from : String
    pub to : String
    pub on_error : Bool
    pub fallback : Bool
    pub when : Option (Values T → Option T.Error → Hook T Bool)
    pub amend : Option (Values T → Hook T (List (String × T.Value)))
    pub accept : Option (Values T → Values T → Hook T Bool)
    pub restore : Option (String → T.Error → Hook T Bool)

  -- `transitionRule`, with what only Build reads beside what a run reads.
  pub record CompiledRule : Type 0 where
    pub rule : FlowRule T
    pub on_error : Bool

  abbrev pub is_set : {A : Type 0} → Option A → Bool
  is_set none = false
  is_set (some a) = true

  -- A compiled rule, as the facts of Build see it.
  abbrev pub facts_rule : CompiledRule → TransitionRule
  facts_rule r = record {
    index = r.rule.index;
    from = r.rule.from;
    to = r.rule.to;
    rewind = r.rule.rewind;
    on_error = r.on_error;
    always = not (is_set r.rule.when);
    amends = is_set r.rule.amend;
  }

  module _ (node : ℕ → Node T) (s : NamedSteps) where
    -- The step of a name.
    unfoldable pub find_step : String → Option ℕ
    find_step name = if str_eq (s.trim name) "" then none else s.index (s.trim name)

    -- The loop over `maxVisits` before the pass over transitions.
    unfoldable pub name_visits : List (String × ℤ) → (ℕ → ℕ) → Out TransitionError (ℕ → ℕ)
    unfolding find_step
    name_visits [] most = ok most
    name_visits ((name, limit) ∷ names) most = elim (find_step name) [
      | none ↦ err (visits_of_no_step name)
      | some i ↦
          if not (most i == 0)
          then err (named_twice name)
          else if ltb_ℤ limit (pos 2)
          then err (too_few_visits name limit)
          else name_visits names (update most i (pos_part limit))
    ]

    -- What `To` names.
    unfoldable pub find_target : String → Option Target
    find_target to =
        if str_eq (s.trim to) "$end"
        then some end_target
        else if str_eq (s.trim to) "$fail"
        then some fail_target
        else if str_eq (s.trim to) ""
        then none
        else (elim (s.index (s.trim to)) [ none ↦ none | some i ↦ some (step i) ])

    -- A rule to an earlier step, or to the same, is a rewind.
    abbrev pub goes_back_to : ℕ → Target → Bool
    goes_back_to from (step t) = leb t from
    goes_back_to from end_target = false
    goes_back_to from fail_target = false

    -- The keys that the steps of a range write, from its start on.
    abbrev pub range_writes : ℕ → ℕ → Keys
    range_writes start zero k = false
    range_writes start (suc n) k = (node start).writes k || range_writes (start + 1) n k

    abbrev pub rule_of : ℕ → Transition → ℕ → Target → CompiledRule
    rule_of i t from to = record {
      rule = record {
        index = i;
        from = from;
        to = to;
        rewind = goes_back_to from to;
        fallback = t.fallback;
        keys =
            if goes_back_to from to
            then range_writes (lands to) (from + 1 - lands to)
            else (λ k. false);
        when = t.when;
        amend = t.amend;
        accept = t.accept;
        restore = t.restore;
      };
      on_error = t.on_error;
    }

    -- The checks of `compileTransition` on a rewind.
    unfoldable pub check_rewind : (ℕ → ℕ) → ℕ → Transition → ℕ → ℕ → Option TransitionError
    check_rewind most i t from to =
        if t.on_error && is_set t.accept
        then some (accept_on_error i)
        else if t.on_error && is_set t.restore
        then some (restore_on_error i)
        else if ltb (most to) 2
        then some (needs_max_visits i to)
        else if is_set t.amend && not ((s.amendable_types to).1)
        then some (no_amendable_keys i to)
        else none

    -- The checks of `compileTransition` on a rule whose steps it has found.
    unfoldable pub check_rule : (ℕ → ℕ) → ℕ → Transition → ℕ → Target → Option TransitionError
    unfolding check_rewind
    check_rule most i t from to =
        if goes_back_to from to
        then check_rewind most i t from (lands to)
        else if is_set t.amend || is_set t.accept || is_set t.restore
        then some (for_rewinds_only i)
        else none

    -- `compileTransition`
    unfoldable pub compile_transition : (ℕ → ℕ) → ℕ → Transition → Out TransitionError CompiledRule
    unfolding find_step find_target check_rule
    compile_transition most i t = elim (find_step t.from) [
      | none ↦ err (from_no_step i t.from)
      | some from ↦ elim (find_target t.to) [
        | none ↦ err (to_no_step i t.to)
        | some to ↦ elim (check_rule most i t from to) [
          | some e ↦ err e
          | none ↦ ok (rule_of i t from to)
        ]
      ]
    ]

    -- The pass over transitions, from this index.
    unfoldable pub compile_all :
        (ℕ → ℕ) → ℕ → List Transition → Out TransitionError (List CompiledRule)
    unfolding compile_transition
    compile_all most i [] = ok []
    compile_all most i (t ∷ ts) = elim (compile_transition most i t) [
      | err e ↦ err e
      | ok r ↦ elim (compile_all most (i + 1) ts) [ err e ↦ err e | ok rs ↦ ok (r ∷ rs) ]
    ]
