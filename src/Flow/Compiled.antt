-- ===== src/Flow/Compiled.antt =====
-- pipeline_transition_run.go: the rules that a run is given, and where a visit may lead.
use gepago.Base.{ℕ, ◌<◌, ◌≤◌, ◌≡◌, ◌⊎◌, Bool, true, false, Option, none, some, List, All}
use gepago.Transition.Defs.{Target, step, end_target, fail_target, has_span}
use gepago.Flow.Data.{FlowTypes, FlowRule, Plan, FlowRun, PendingRewind, StepVisit}
use gepago.Flow.Failure.{Next, at, unfinished}

module _ (T : FlowTypes) (spans : List (ℕ × ℕ)) where
  -- What a rule of step `i` leads to, by whether it is a rewind.
  abbrev pub Aims : ℕ → Target → Bool → Type 0
  Aims i (step t) true = (t ≤ i) × (has_span (t, i) spans ≡ true)
  Aims i (step t) false = i < t
  Aims i end_target b = b ≡ false
  Aims i fail_target b = b ≡ false

  -- A rule of step `i` as it is compiled, where these are the ranges of the rewinds.
  abbrev pub RuleAt : ℕ → FlowRule T → Type 0
  RuleAt i r = (r.from ≡ i) × Aims i r.to r.rewind

  pub record CompiledPlan (p : Plan T) : Type 0 where
    pub success : (i : ℕ) → All (RuleAt i) (p.success i)
    pub failure : (i : ℕ) → All (RuleAt i) (p.failure i)

  -- The ranges go forward, two of them that share a step are the same, and a rewind may land on the
  -- start of each.
  pub record SpansApart (p : Plan T) : Type 0 where
    pub ordered : (a b : ℕ) → has_span (a, b) spans ≡ true → a ≤ b
    pub apart :
        (a b c d k : ℕ)
        → has_span (a, b) spans ≡ true
        → has_span (c, d) spans ≡ true
        → (a ≤ k) × (k ≤ b)
        → (c ≤ k) × (k ≤ d)
        → (a ≡ c) × (b ≡ d)
    pub allowed : (a b : ℕ) → has_span (a, b) spans ≡ true → 0 < p.max_visits a

  module _ (p : Plan T) (vs : ℕ → ℕ) (i : ℕ) where
    -- A visit of step `i` may lead on, or back to the start of a range that ends at the step, while
    -- `MaxVisits` allows it.
    abbrev pub LeadsTo : ℕ → Type 0
    LeadsTo next =
        (i < next)
        ⊎ ((next ≤ i) × (has_span (next, i) spans ≡ true) × (vs next < p.max_visits next))

    abbrev pub Leads : Next T → Type 0
    Leads (at next) = i < p.steps → LeadsTo next
    Leads unfinished = ⊥

    abbrev pub GoesAt : Target → Type 0
    GoesAt (step t) = LeadsTo t
    GoesAt end_target = Unit
    GoesAt fail_target = Unit

    -- A rule that may be followed.
    abbrev pub GoesTo : FlowRule T → Type 0
    GoesTo r = (i ≤ r.from) × GoesAt r.to

    abbrev pub MayFollow : Option (FlowRule T) → Type 0
    MayFollow none = Unit
    MayFollow (some r) = GoesTo r

    abbrev pub ChosenBy : StepVisit T → Type 0
    ChosenBy v = MayFollow v.rule

module _ (T : FlowTypes) where
  -- The rewind that is pending ends at step `i` or later.
  abbrev pub EndsFrom : ℕ → Option (PendingRewind T) → Type 0
  EndsFrom i none = Unit
  EndsFrom i (some r) = i ≤ r.rule.from

  -- The steps have been visited this often, and the range that runs again has not been left.
  abbrev pub AtVisit : (ℕ → ℕ) → ℕ → FlowRun T → Type 0
  AtVisit vs i f = (f.visits ≡ vs) × EndsFrom i f.rewind
