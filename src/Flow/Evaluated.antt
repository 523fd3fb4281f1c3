-- ===== src/Flow/Evaluated.antt =====
-- pipeline_transition_run.go: `failed`, with its loop that evaluates the rules, and `succeeded`.
use gepago.Base.{
  ℕ, suc, ◌+◌, ◌≡◌, ap, sym, ◌∙◌, Bool, true, false, none, some, List, [], ◌∷◌, All, arith, ◌&&◌,
  ◌||◌, ◌==◌,
}
use gepago.Base.Action.{
  Ends, Keeps, bind-Ends, then-Ends, get-Ends, pure-Ends, fail-Ends, if-Ends, option-Ends, out-Ends,
}
use gepago.Flow.Data.{FlowTypes, Values, FlowRule, Plan, FlowEnv, FlowRun, StepVisit, Method}
use gepago.Flow.Hooks.{landing, check_visits, exhausted}
use gepago.Flow.Visit.{ending_at}
use gepago.Flow.Failure.{Next, at, consider, scan, evaluate, reject_failed, seen_after, failed}
use gepago.Flow.Loop.{to_fail, commit_unless_fail, settle, succeeded}
use gepago.Flow.Compiled.{RuleAt, CompiledPlan, Leads, ChosenBy, AtVisit}
use gepago.Flow.Stays.{call_when-Keeps, end_rewind-Ends, reject_rewind-Keeps, commit-Keeps}
use gepago.Flow.Followed.{asking, take_match-Ends, follow-Ends}

module _ (T : FlowTypes) (p : Plan T) (E : FlowEnv T) (spans : List (ℕ × ℕ)) (vs : ℕ → ℕ) (i : ℕ)
    (compiled : CompiledPlan T spans p) where
  abbrev J : FlowRun T → Type 0
  J = AtVisit T vs i

  abbrev Led : Next T → FlowRun T → Type 0
  Led n f = J f × Leads T spans p vs i n

  -- A rewind that has used its visits has used them wherever no step is visited in between.
  check_visits-spent :
      (f g : FlowRun T) (r : FlowRule T) (x : T.Error)
      → J f
      → J g
      → check_visits T p E g r ≡ some x
      → exhausted T p E f r ≡ true
  unfolding check_visits exhausted
  check_visits-spent f g r x (jf, _) (jg, _) h =
      let same : f.visits (landing T p E r) ≡ g.visits (landing T p E r) =
        ap (λ (v : ℕ → ℕ). v (landing T p E r)) (jf ∙ sym jg) in
      ground (arith, h, same)

  module _ (v : StepVisit T) (own : T.Error) (reads : Values T) where
    -- The rules may be evaluated again, unless those that have used their visits no longer match.
    abbrev AgainEnds : Bool → (Bool → T.Error → Method T (Next T)) → Type 0
    AgainEnds used again =
        used ≡ false → (b : Bool) (e : T.Error) (f : FlowRun T) → J f → Ends J Led (again b e) f

    consider-Ends :
        (restorable : Bool) (k : ℕ) (used : Bool) (e : T.Error) (r : FlowRule T)
        (again : Bool → T.Error → Method T (Next T)) (rest : Bool → Method T (Next T))
        (f : FlowRun T)
        → RuleAt T spans i r
        → AgainEnds used again
        → ((b : Bool) (g : FlowRun T) → J g → Ends J Led (rest b) g)
        → J f
        → Ends J Led (consider T p E i v own reads restorable k used e r again rest) f
    unfolding consider
    consider-Ends restorable k used e r again rest f rule ends goes j = get-Ends _ (
        if-Ends (used && r.rewind && exhausted T p E f r) (λ _. goes restorable f j)
          (λ fresh. bind-Ends (call_when-Keeps T p E vs i r _ (some e) f j) (λ matched g h.
            out-Ends matched (λ we _. fail-Ends _ h)
              (λ b _.
                if-Ends b
                  (λ _.
                    asking T p E spans vs i compiled v own reads _ _ g
                      (λ g' h'.
                        take_match-Ends T p E spans vs i compiled v own reads r e _ g' rule
                          (λ back x spent.
                            ends (unused used fresh back (check_visits-spent f g' r x j h' spent)) _
                              _ g' h')
                          h')
                      h)
                  (λ _. goes restorable g h)))))
      where
        unused :
            (u : Bool)
            → (u && r.rewind && exhausted T p E f r) ≡ false
            → r.rewind ≡ true
            → exhausted T p E f r ≡ true
            → u ≡ false
        unused u h back spent = grind arith

    scan-Ends :
        (restorable : Bool) (k : ℕ) (used : Bool) (e : T.Error)
        (again : Bool → T.Error → Method T (Next T)) (rs : List (FlowRule T)) (f : FlowRun T)
        → All (RuleAt T spans i) rs
        → AgainEnds used again
        → J f
        → Ends J Led (scan T p E i v own reads restorable k used e again rs) f
    unfolding scan
    scan-Ends restorable k used e again [] f rules ends j =
        asking T p E spans vs i compiled v own reads restorable _ f (λ g h. fail-Ends _ h) j
    scan-Ends restorable k used e again (r ∷ rs) f (rule, rules) ends j =
        asking T p E spans vs i compiled v own reads _ _ f
          (λ g h.
            consider-Ends _ k used e r again _ g rule ends
              (λ b g' h'. scan-Ends b (k + 1) used e again rs g' rules ends h') h)
          j

    evaluate_used-Ends :
        (fuel : ℕ) (restorable : Bool) (e : T.Error) (f : FlowRun T)
        → J f
        → Ends J Led (evaluate T p E i v own reads (suc fuel) restorable true e) f
    unfolding evaluate
    evaluate_used-Ends fuel restorable e f j =
        scan-Ends restorable 0 true e _ (p.failure i) f (compiled.failure i) (λ h. absurd (cc)) j

    -- The rules are evaluated at most twice.
    evaluate-Ends :
        (restorable used : Bool) (e : T.Error) (f : FlowRun T)
        → J f
        → Ends J Led (evaluate T p E i v own reads 2 restorable used e) f
    unfolding evaluate
    evaluate-Ends restorable used e f j =
        scan-Ends restorable 0 used e _ (p.failure i) f (compiled.failure i)
          (λ _ b x g h. evaluate_used-Ends 0 b x g h) j

  -- `failed` leads where the rules of the step may, or past the range that it restores.
  pub failed-Ends :
      (v : StepVisit T) (e : T.Error) (f : FlowRun T) → J f → Ends J Led (failed T p E i v e) f
  unfolding failed reject_failed
  failed-Ends v e f j =
      bind-Ends
        (get-Ends _ (
          option-Ends f.rewind (λ _. pure-Ends _ j)
            (λ r _.
              if-Ends (r.rule.from == i && (v.rejected || v.accept_failed))
                (λ _.
                  bind-Ends (reject_rewind-Keeps T p E vs i i v none r f j)
                    (λ reads g h. pure-Ends _ h))
                (λ _. pure-Ends _ j))))
        (λ o g h. get-Ends _ (
          if-Ends (E.context_ended g.world) (λ _. fail-Ends _ h)
            (λ _. evaluate-Ends (seen_after T p E v g) e o.0 o.1 v.maxed e g h)))

  commit_unless_fail-Keeps : (v : StepVisit T) → Keeps J (commit_unless_fail T p E v)
  commit_unless_fail-Keeps v f j =
      if-Ends (to_fail T p E v.rule) (λ _. pure-Ends tt j) (λ _. commit-Keeps T p E vs i v f j)

  settle-Keeps : (v : StepVisit T) → Keeps J (settle T p E i v)
  unfolding settle
  settle-Keeps v f j = get-Ends _ (
      option-Ends (ending_at T p E i f)
        (λ _. then-Ends (commit_unless_fail-Keeps v f j) (λ _ g h. pure-Ends _ h))
        (λ r _.
          if-Ends v.rejected (λ _. reject_rewind-Keeps T p E vs i i v none r f j)
            (λ _. then-Ends (commit_unless_fail-Keeps v f j) (λ _ g h.
              then-Ends (end_rewind-Ends T p E vs i true g h.0) (λ _ g' h'. pure-Ends _ h')))))

  -- `succeeded` leads where the rule that the visit follows does.
  pub succeeded-Ends :
      (v : StepVisit T) (f : FlowRun T)
      → J f × ChosenBy T spans p vs i v
      → Ends J (λ n. Led (at n)) (succeeded T p E i v) f
  unfolding succeeded
  succeeded-Ends v f (j, chosen) =
      bind-Ends (settle-Keeps v f j) (λ reads g h.
        follow-Ends T p E spans vs i i v.rule reads v.amended g (omega arith) chosen h)
