-- ===== src/Transition/PlanTests.antt =====
-- pipeline_transition.go: a transition that Build passes, from the second of two steps to the first.
use gepago.Base.{
  ◌<◌, ◌≤◌, ◌≡◌, refl, String, Bool, true, false, none, some, List, [], ◌∷◌, str_eq, ltb, update,
  arith, if◌then◌else◌,
}
use gepago.Base.Int.{ℤ, pos, ◌+ℤ◌}
use gepago.Base.Action.{Out, ok}
use gepago.Transition.Defs.{
  step, has_span, enter_through, allows, enter, record_rules, record_rule, cover, cover_span,
}
use gepago.Flow.Data.{FlowRun, StepError}
use gepago.Flow.Values.{no_values}
use gepago.Flow.Loop.{run_flow}
use gepago.Flow.Ending.{most_rounds}
use gepago.Flow.Tests.{flow_types, counting, drafts}
use gepago.Transition.Compile.{
  NamedSteps, Transition, rule_of, find_step, find_target, name_visits, check_rule, check_rewind,
  compile_transition, compile_all,
}
use gepago.Transition.Table.{
  TransitionTable, table_of, check_transitions, unused_name, enters, plan_of,
}
use gepago.Transition.Sound.{NamesSteps}
use gepago.Transition.Plans.{check_transitions-run_flow}

abbrev two_steps : NamedSteps
two_steps = record {
  count = 2;
  trim = λ name. name;
  index =
      λ name. if str_eq name "draft" then some 0 else if str_eq name "judge" then some 1 else none;
  amendable_types = λ i. (λ k. false, false);
}

two_steps-NamesSteps : NamesSteps two_steps
two_steps-NamesSteps name i h = go (str_eq name "draft") (str_eq name "judge") h
  where
    go : (a b : Bool) → (if a then some 0 else if b then some 1 else none) ≡ some i → i < 2
    go true b h = ground (arith, h)
    go false true h = ground (arith, h)
    go false false h = absurd (cc)

abbrev again : Transition flow_types
again = record {
  from = "judge";
  to = "draft";
  on_error = false;
  fallback = false;
  when = some (λ values e w. (ok (ltb w 5), w));
  amend = none;
  accept = none;
  restore = none;
}

abbrev limits : List (String × ℤ)
limits = ("draft", pos 3) ∷ []

abbrev again_table : TransitionTable flow_types
again_table =
    table_of flow_types drafts.node two_steps (update (λ i. 0) 0 3)
      (rule_of flow_types drafts.node two_steps 0 again 1 (step 0) ∷ [])

again-checked :
    check_transitions flow_types drafts.node two_steps limits (again ∷ []) ≡ ok again_table
unfolding check_transitions name_visits find_step find_target check_rule check_rewind
    compile_transition compile_all unused_name record_rules record_rule cover cover_span update
again-checked = refl

again-enters : enters flow_types drafts.node two_steps 2 again_table.facts ≡ true
unfolding enters enter_through enter allows record_rules record_rule cover cover_span ◌+ℤ◌
again-enters = refl

again-span : has_span (0, 1) again_table.facts.spans ≡ true
unfolding record_rules record_rule cover cover_span
again-span = refl

few_rounds :
    most_rounds flow_types
      (plan_of flow_types drafts.node two_steps again_table drafts.merges drafts.convert)
    < 12
unfolding update
few_rounds = omega arith

check_transitions-run_flow_example :
    (e : Out (StepError flow_types) (Unit {0}) × FlowRun flow_types) × (run_flow flow_types
        (plan_of flow_types drafts.node two_steps again_table drafts.merges drafts.convert)
        counting
        12
        (no_values flow_types)
        (λ k. false)
        0
      ≡ some e)
    × (e.1.visits 0 ≤ 3)
unfolding update
check_transitions-run_flow_example =
    check_transitions-run_flow flow_types drafts.node two_steps two_steps-NamesSteps drafts.merges
      drafts.convert counting limits (again ∷ []) again_table 12 (no_values flow_types) (λ k. false)
      0 0 1 again-checked again-enters few_rounds again-span
