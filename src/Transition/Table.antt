-- ===== src/Transition/Table.antt =====
-- pipeline_transition.go: the table that `checkTransitions` fills, and the plan of a run with it.
use gepago.Base.{
  ℕ, zero, suc, ◌+◌, String, Bool, true, false, not, ◌&&◌, Option, none, some, List, [], ◌∷◌, ◌==◌,
  map, if◌then◌else◌,
}
use gepago.Base.Int.{ℤ}
use gepago.Base.Action.{Out, ok, err}
use gepago.Transition.Defs.{
  TransitionFacts, record_rules, new_transition_facts, enter_through, allows,
}
use gepago.Flow.Data.{FlowTypes, Keys, FlowRule, Node, Plan}
use gepago.Transition.Compile.{
  TransitionError, unused_visits, NamedSteps, Transition, CompiledRule, facts_rule, find_step,
  name_visits, compile_all,
}

module _ (T : FlowTypes) where
  -- `transitionTable`, with the facts of Build.
  pub record TransitionTable : Type 0 where
    pub rules : List (CompiledRule T)
    pub success : ℕ → List (FlowRule T)
    pub failure : ℕ → List (FlowRule T)
    pub max_visits : ℕ → ℕ
    pub amendable : ℕ → Keys
    pub fallback : ℕ → Option ℕ
    pub facts : TransitionFacts

  -- The rules of a step, on failure or on success, in their order.
  abbrev pub rules_of : Bool → ℕ → List (CompiledRule T) → List (FlowRule T)
  rules_of on_error i [] = []
  rules_of on_error i (r ∷ rs) =
      if r.rule.from == i && (if on_error then r.on_error else not r.on_error)
      then r.rule ∷ rules_of on_error i rs
      else rules_of on_error i rs

  -- The position, from `k` on, of the last rule that Fallback marked.
  abbrev pub last_fallback : ℕ → List (FlowRule T) → Option ℕ
  last_fallback k [] = none
  last_fallback k (r ∷ rs) = elim (last_fallback (k + 1) rs) [
    | some j ↦ some j
    | none ↦ if r.fallback then some k else none
  ]

  abbrev pub facts_of : ℕ → List (CompiledRule T) → TransitionFacts
  facts_of n rs = record_rules (map (facts_rule T) rs) n new_transition_facts

  module _ (node : ℕ → Node T) (s : NamedSteps) where
    abbrev pub table_of : (ℕ → ℕ) → List (CompiledRule T) → TransitionTable
    table_of most rs = record {
      rules = rs;
      success = λ i. rules_of false i rs;
      failure = λ i. rules_of true i rs;
      max_visits = most;
      amendable =
          λ t. if (facts_of s.count rs).target t then (s.amendable_types t).0 else (λ k. false);
      fallback = λ i. last_fallback 0 (rules_of true i rs);
      facts = facts_of s.count rs;
    }

    -- The first entry of `maxVisits` whose step no rewind lands on.
    unfoldable pub unused_name : List (String × ℤ) → (ℕ → Bool) → Option String
    unused_name [] target = none
    unused_name ((name, limit) ∷ names) target = elim (find_step T node s name) [
      | none ↦ some name
      | some i ↦ if target i then unused_name names target else some name
    ]

    -- `checkTransitions`
    unfoldable pub check_transitions :
        List (String × ℤ) → List (Transition T) → Out TransitionError TransitionTable
    unfolding unused_name
    check_transitions visits ts = elim (name_visits T node s visits (λ i. 0)) [
      | err e ↦ err e
      | ok most ↦ elim (compile_all T node s most 0 ts) [
        | err e ↦ err e
        | ok rs ↦ elim (unused_name visits (facts_of s.count rs).target) [
          | some name ↦ err (unused_visits name)
          | none ↦ ok (table_of most rs)
        ]
      ]
    ]

    -- What Build's pass over these steps refuses nothing of: `enter` at each.
    unfoldable pub enters : ℕ → TransitionFacts → Bool
    enters zero f = true
    enters (suc i) f = enters i f && allows (enter_through i f)

    -- What a run is given, with the MergeRules of the pipeline.
    abbrev pub plan_of :
        TransitionTable
        → (String → Option (T.Value → T.Value → Out T.Error T.Value))
        → (String → T.Value → Out T.Error T.Value)
        → Plan T
    plan_of t merges convert = record {
      steps = s.count;
      node = node;
      success = t.success;
      failure = t.failure;
      max_visits = t.max_visits;
      target = t.facts.target;
      amendable = t.amendable;
      fallback = t.fallback;
      merges = merges;
      convert = convert;
    }
