-- ===== src/Flow/Tests.antt =====
-- pipeline_transition_run.go: a run of two steps, whose second rewinds to the first until the third
-- draft.
use Prim.Native.Nat.{zero-le}
use gepago.Base.{
  ℕ, zero, suc, ◌+◌, ◌≤◌, ◌≡◌, refl, true, false, Option, none, some, List, [], ◌∷◌, All, arith,
  ltb, str_eq, put, update, ◌==◌, ◌&&◌, if◌then◌else◌,
}
use gepago.Base.Action.{Out, ok, Ends}
use gepago.Transition.Defs.{step}
use gepago.Flow.Data.{FlowTypes, Keys, FlowRule, Plan, StepError, PendingRewind, FlowRun, FlowEnv}
use gepago.Flow.Values.{no_values}
use gepago.Flow.Rewind.{begin_rewind, reject_rewind}
use gepago.Flow.Visit.{new_visit}
use gepago.Flow.Loop.{new_flow_run, run_flow}
use gepago.Base.Action.{get, pure, modify, attempt, ◌>>◌, ◌>>=◌}
use gepago.Flow.Values.{
  restore_values, merge_writes, merge_key, overlay, key_values, snapshot_all, snapshot_keys,
}
use gepago.Flow.Hooks.{
  outside, call_accept, call_when, call_hook, call_amend, check_visits, exhausted,
}
use gepago.Flow.Rewind.{
  commit, commit_values, stage_visit, follow, taken, go_to, start_rewind, end_rewind, end_pending,
}
use gepago.Flow.Visit.{
  accept_visit, visit, finish_visit, check_result, decide, judge, choose, choose_rule, amend_visit,
  end_visit, begin_visit, take_amended,
}
use gepago.Flow.Loop.{run_from, round, leave_range, go_on, end_round, pass_over, succeeded, settle}
use gepago.Flow.Compiled.{RuleAt, CompiledPlan, SpansApart}
use gepago.Flow.Ending.{run_flow-ends}
use gepago.Flow.Visits.{run_flow-visits_le}
use gepago.Flow.Restore.{reject_rewind-begin_rewind}

abbrev pub flow_types : FlowTypes
flow_types = record { Value = ℕ; Staged = ℕ; Error = ℕ; World = ℕ }

abbrev draft_key : Keys
draft_key k = str_eq k "draft"

abbrev again_rule : FlowRule flow_types
again_rule = record {
  index = 0;
  from = 1;
  to = step 0;
  rewind = true;
  fallback = false;
  keys = draft_key;
  when = some (λ values e w. (ok (ltb w 5), w));
  amend = none;
  accept = none;
  restore = none;
}

abbrev rules_at : ℕ → List (FlowRule flow_types)
rules_at zero = []
rules_at (suc zero) = again_rule ∷ []
rules_at (suc (suc i)) = []

abbrev pub drafts : Plan flow_types
drafts = record {
  steps = 2;
  node = λ i. record {
    name = if i == 0 then "draft" else "judge";
    reads = λ k. false;
    writes = λ k. i == 0 && draft_key k;
    write_names = if i == 0 then "draft" ∷ [] else [];
  };
  success = rules_at;
  failure = λ i. [];
  max_visits = λ i. if i == 0 then 3 else 0;
  target = λ i. i == 0;
  amendable = λ i k. false;
  fallback = λ i. none;
  merges = λ k. none;
  convert = λ k v. ok v;
}

abbrev pub counting : FlowEnv flow_types
counting = record {
  run_node = λ visit i pending view w.
      (ok (record { writes = put (no_values flow_types) "draft" (some w); staged = 0 }), w + 1);
  end_node = λ i e w. w;
  no_staged = 0;
  stage_add = λ s t. s + t;
  commit_staged = λ s w. w;
  start_journal = λ w. w;
  end_journal = λ keep w. w;
  offer = λ a w. w;
  resolve_step = λ w. w;
  context_ended = λ w. false;
  hook_error = λ r name e. e;
  both_errors = λ e f. e;
  max_visits_error = λ r t visit most. 1;
  fail_error = λ r e. 2;
  not_amendable = λ r k. 3;
  no_merge_rule = λ k. 4;
  merge_failed = λ k e. 5;
}

drafts-CompiledPlan : CompiledPlan flow_types ((0, 1) ∷ []) drafts
drafts-CompiledPlan = record { success = at_step; failure = λ i. tt }
  where
    at_step : (i : ℕ) → All (RuleAt flow_types ((0, 1) ∷ []) i) (rules_at i)
    at_step zero = tt
    at_step (suc zero) = ((refl, (zero-le, refl)), tt)
    at_step (suc (suc i)) = tt

drafts-SpansApart : SpansApart flow_types ((0, 1) ∷ []) drafts
drafts-SpansApart = record {
  ordered = λ a b h. ground (arith, h);
  apart = λ a b c d k h h' _ _. (ground (arith, h, h'), ground (arith, h, h'));
  allowed = λ a b h. ground (arith, h);
}

run_flow-ends_example :
    (e : Out (StepError flow_types) (Unit {0}) × FlowRun flow_types) × run_flow flow_types drafts
        counting 12
        (no_values flow_types)
        (λ k. false)
        0
      ≡ some e
run_flow-ends_example =
    run_flow-ends flow_types drafts counting ((0, 1) ∷ []) drafts-CompiledPlan 12
      (no_values flow_types) (λ k. false) 0 (omega arith)

-- The run as it ends: after three drafts, or at its start had it not ended.
abbrev drafts_end : Out (StepError flow_types) (Unit {0}) × FlowRun flow_types
drafts_end = elim (run_flow flow_types drafts counting 12 (no_values flow_types) (λ k. false) 0) [
  | some e ↦ e
  | none ↦ (ok tt, new_flow_run flow_types drafts counting (no_values flow_types) (λ k. false) 0)
]

drafts_end-visits : drafts_end.1.visits 0 ≡ 3
unfolding run_flow run_from round leave_range visit finish_visit check_result merge_writes merge_key
    decide judge choose choose_rule amend_visit end_visit begin_visit take_amended outside go_on
    end_round pass_over succeeded settle commit commit_values stage_visit follow taken go_to
    start_rewind begin_rewind end_rewind end_pending call_when call_hook call_amend check_visits
    exhausted get pure modify attempt ◌>>◌ ◌>>=◌ new_flow_run update put overlay key_values
    snapshot_all restore_values call_accept accept_visit
drafts_end-visits = refl

-- A run that has ended is the one that it ends with.
some_end :
    {A : Type 0} (o : Option A) (a d : A) → o ≡ some a → o ≡ some (elim o [ some e ↦ e | none ↦ d ])
some_end none a d h = absurd (cc)
some_end (some e) a d h = refl

drafts_end-run :
    run_flow flow_types drafts counting 12 (no_values flow_types) (λ k. false) 0 ≡ some drafts_end
drafts_end-run =
    let (e, h) =
      run_flow-ends flow_types drafts counting ((0, 1) ∷ []) drafts-CompiledPlan 12
        (no_values flow_types) (λ k. false) 0 (omega arith) in
    some_end _ e _ h

run_flow-visits_le_example : drafts_end.1.visits 0 ≤ 3
run_flow-visits_le_example =
    run_flow-visits_le flow_types drafts counting ((0, 1) ∷ []) drafts-CompiledPlan
      drafts-SpansApart 12 (no_values flow_types) (λ k. false) 0 drafts_end 0 1 drafts_end-run refl

-- The state after one draft, and after another that the rewind is about to reject.
abbrev drafted : ℕ → FlowRun flow_types
drafted n =
    record (new_flow_run flow_types drafts counting (put (no_values flow_types) "draft" (some n))
      draft_key 1) { visits = λ i. 1 }

abbrev drafting : PendingRewind flow_types
drafting = record {
  rule = again_rule;
  prev = snapshot_keys flow_types (drafted 7) draft_key;
  amended = none;
  stage = 0;
}

reject_rewind-begin_rewind_example :
    Ends
      (λ h.
        (h.values "draft" ≡ (drafted 7).values "draft")
        × (h.defaulted "draft" ≡ (drafted 7).defaulted "draft"))
      (λ _ h.
        (h.values "draft" ≡ (drafted 7).values "draft")
        × (h.defaulted "draft" ≡ (drafted 7).defaulted "draft"))
      (reject_rewind flow_types drafts counting 1
        (new_visit flow_types drafts counting (no_values flow_types) true)
        none
        drafting)
      (drafted 9)
unfolding begin_rewind
reject_rewind-begin_rewind_example =
    reject_rewind-begin_rewind flow_types drafts counting 1
      (new_visit flow_types drafts counting (no_values flow_types) true) none again_rule none
      (drafted 7) (drafted 9) "draft" drafting drafting refl refl refl (λ out. absurd (cc))
