-- ===== src/Flow/Followed.antt =====
-- pipeline_transition_run.go: where a visit leads, in `succeeded` and `failed`.
use gepago.Base.{
  ℕ, ◌≤◌, ◌≡◌, subst, Bool, true, Option, none, some, List, [], ◌∷◌, All, arith, inl, if◌then◌else◌,
}
use gepago.Base.Action.{
  pure, fail, ◌>>=◌, ◌>>◌, Ends, bind-Ends, then-Ends, get-Ends, pure-Ends, fail-Ends, if-Ends,
  option-Ends, out-Ends,
}
use gepago.Transition.Defs.{Target, step, end_target, fail_target}
use gepago.Flow.Data.{
  FlowTypes, Values, FlowRule, Plan, FlowEnv, FlowRun, PendingRewind, StepVisit, Method,
}
use gepago.Flow.Hooks.{check_visits}
use gepago.Flow.Rewind.{step_failure_of, go_to, follow, start_rewind}
use gepago.Flow.Visit.{ending_at}
use gepago.Flow.Failure.{Next, at, follow_restored, restore, ask_restore, take_failure, take_match}
use gepago.Flow.Compiled.{RuleAt, CompiledPlan, Leads, GoesAt, GoesTo, EndsFrom, MayFollow, AtVisit}
use gepago.Flow.Stays.{
  call_hook-Keeps, call_when-Keeps, call_amend-Keeps, taken-Keeps, end_rewind-Ends,
  reject_rewind-Keeps, start_rewind-Keeps,
}
use gepago.Flow.Chosen.{goes_back, goes_on, check_visits-few}

module _ (T : FlowTypes) (p : Plan T) (E : FlowEnv T) (spans : List (ℕ × ℕ)) (vs : ℕ → ℕ)
    (i : ℕ) where
  abbrev J : FlowRun T → Type 0
  J = AtVisit T vs i

  abbrev Goes : FlowRule T → Type 0
  Goes = GoesTo T spans p vs i

  abbrev Led : Next T → FlowRun T → Type 0
  Led n f = J f × Leads T spans p vs i n

  abbrev LedTo : ℕ → FlowRun T → Type 0
  LedTo n = Led (at n)

  go_to-Ends :
      (k : ℕ) (r : FlowRule T) (reads : Values T) (amended : Option (Values T)) (e : Option T.Error)
      (f : FlowRun T)
      → Goes r
      → J f
      → Ends J LedTo (go_to T p E k r reads amended e) f
  unfolding go_to
  go_to-Ends k r reads amended e f (from, aims) j = go r.to aims
    where
      go :
          (t : Target)
          → GoesAt T spans p vs i t
          → Ends J LedTo
              (elim t [
                | fail_target ↦ fail (step_failure_of T p E k reads (E.fail_error r.index e))
                | end_target ↦ pure p.steps
                | step t ↦ if r.rewind then (start_rewind T p E r amended >> pure t) else pure t
              ])
              f
      go (step t) leads =
          if-Ends r.rewind
            (λ _.
              then-Ends (start_rewind-Keeps T p E vs i r amended from f j)
                (λ _ g k. pure-Ends t (k, λ _. leads)))
            (λ _. pure-Ends t (j, λ _. leads))
      go end_target leads = pure-Ends p.steps (j, λ lt. inl lt)
      go fail_target leads = fail-Ends _ j

  pub follow-Ends :
      (k : ℕ) (o : Option (FlowRule T)) (reads : Values T) (amended : Option (Values T))
      (f : FlowRun T)
      → i ≤ k
      → MayFollow T spans p vs i o
      → J f
      → Ends J LedTo (follow T p E k o reads amended) f
  unfolding follow
  follow-Ends k none reads amended f le goes j = pure-Ends _ (j, λ _. inl (omega (arith, le)))
  follow-Ends k (some r) reads amended f le goes j =
      then-Ends (taken-Keeps T p E vs i r f j) (λ _ g h. go_to-Ends k r reads amended none g goes h)

  follow_restored-Ends :
      (k : ℕ) (reads : Values T) (e : T.Error) (rs : List (FlowRule T)) (f : FlowRun T)
      → i ≤ k
      → All (RuleAt T spans k) rs
      → J f
      → Ends J LedTo (follow_restored T p E i k reads e rs) f
  unfolding follow_restored
  follow_restored-Ends k reads e [] f le rules j =
      get-Ends _ (follow-Ends k none f.values none f le tt j)
  follow_restored-Ends k reads e (r ∷ rs) f le (rule, rules) j =
      if-Ends r.rewind (λ _. follow_restored-Ends k reads e rs f le rules j)
        (λ forward. get-Ends _ (
          bind-Ends (call_when-Keeps T p E vs i r _ none f j) (λ matched g h.
            out-Ends matched (λ we _. fail-Ends _ h)
              (λ b _.
                if-Ends b
                  (λ _.
                    follow-Ends k (some r) _ none g le
                      (goes_on T p E spans vs i k r rule le forward) h)
                  (λ _. follow_restored-Ends k reads e rs g le rules h)))))

  take_failure-Ends :
      (r : FlowRule T) (reads : Values T) (amended : Option (Values T)) (e : T.Error)
      (f : FlowRun T)
      → Goes r
      → J f
      → Ends J LedTo (take_failure T p E i r reads amended e) f
  unfolding take_failure
  take_failure-Ends r reads amended e f goes j = get-Ends _ (
      then-Ends
        (option-Ends (ending_at T p E i f) (λ _. pure-Ends tt j)
          (λ _ _. end_rewind-Ends T p E vs i true f j.0))
        (λ _ g h.
          then-Ends (taken-Keeps T p E vs i r g h)
            (λ _ g' h'. go_to-Ends i r reads amended (some e) g' goes h')))

  module _ (compiled : CompiledPlan T spans p) where
    restore-Ends :
        (v : StepVisit T) (e : T.Error) (r : PendingRewind T) (f : FlowRun T)
        → i ≤ r.rule.from
        → J f
        → Ends J LedTo (restore T p E i v e r) f
    unfolding restore
    restore-Ends v e r f le j =
        bind-Ends (reject_rewind-Keeps T p E vs i i v (some e) r f j) (λ reads g h.
          follow_restored-Ends r.rule.from reads e (p.success r.rule.from) g le
            (compiled.success r.rule.from) h)

    -- Where `RestoreOnError` has been asked, with the next step if it restores.
    abbrev Asked : Option ℕ → FlowRun T → Type 0
    Asked none f = J f
    Asked (some n) f = LedTo n f

    ask_restore-Ends :
        (v : StepVisit T) (e : T.Error) (reads : Values T) (f : FlowRun T)
        → J f
        → Ends J Asked (ask_restore T p E i v e reads) f
    unfolding ask_restore
    ask_restore-Ends v e reads f j = get-Ends _ (
        option-Ends f.rewind (λ _. pure-Ends none j)
          (λ r pending.
            option-Ends r.rule.restore (λ _. pure-Ends none j)
              (λ hook _.
                bind-Ends (call_hook-Keeps T p E vs i r.rule "RestoreOnError" _ f j) (λ answer g h.
                  out-Ends answer (λ he _. fail-Ends _ h)
                    (λ b _.
                      if-Ends b
                        (λ _.
                          bind-Ends (restore-Ends v e r g (subst (EndsFrom T i) pending j.1) h)
                            (λ n g' k. pure-Ends (some n) k))
                        (λ _. pure-Ends none h))))))

    -- What goes on where `RestoreOnError` was not asked or did not restore.
    pub asking :
        (v : StepVisit T) (e : T.Error) (reads : Values T) (b : Bool) (rest : Method T (Next T))
        (f : FlowRun T)
        → ((g : FlowRun T) → J g → Ends J Led rest g)
        → J f
        → Ends J Led
            ((if b then ask_restore T p E i v e reads else pure none) >>= λ next. elim next [
              | some n ↦ pure (at n)
              | none ↦ rest
            ])
            f
    asking v e reads b rest f h j =
        bind-Ends (if-Ends b (λ _. ask_restore-Ends v e reads f j) (λ _. pure-Ends none j))
          (λ next g k. go next g k)
      where
        go :
            (o : Option ℕ) (g : FlowRun T)
            → Asked o g
            → Ends J Led (elim o [ some n ↦ pure (at n) | none ↦ rest ]) g
        go none g k = h g k
        go (some n) g k = pure-Ends (at n) k

    module _ (v : StepVisit T) (own : T.Error) (reads : Values T) where
      -- The rules are evaluated again only where a rewind has used its visits.
      pub take_match-Ends :
          (r : FlowRule T) (e : T.Error) (again : T.Error → Method T (Next T)) (f : FlowRun T)
          → RuleAt T spans i r
          → (r.rewind ≡ true
              → (x : T.Error) → check_visits T p E f r ≡ some x
              → Ends J Led (again (E.both_errors e x)) f)
          → J f
          → Ends J Led (take_match T p E i v own reads r e again) f
      unfolding take_match
      take_match-Ends r e again f rule h j =
          if-Ends r.rewind
            (λ back. get-Ends _ (
              option-Ends (check_visits T p E f r)
                (λ few. bind-Ends (call_amend-Keeps T p E vs i r _ _ f j) (λ amended g k.
                  out-Ends amended (λ ae _. fail-Ends _ k)
                    (λ a _.
                      bind-Ends
                        (take_failure-Ends r reads a e g
                          (goes_back T p E spans vs i r rule back
                            (check_visits-few T p E spans vs i f r j few))
                          k)
                        (λ n g' l. pure-Ends (at n) l))))
                (h back)))
            (λ forward.
              bind-Ends
                (take_failure-Ends r reads none e f
                  (goes_on T p E spans vs i i r rule (omega arith) forward) j)
                (λ n g' l. pure-Ends (at n) l))
