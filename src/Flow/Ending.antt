-- ===== src/Flow/Ending.antt =====
-- pipeline_transition_run.go: how many rounds a run takes.
use native.Mathlib.Nat.{mul-le-mul_right}
use gepago.Base.{
  ℕ, zero, suc, ◌+◌, ◌*◌, ◌-◌, ◌<◌, ◌≤◌, ◌≡◌, refl, subst, sym, ◌⊎◌, inl, inr, true, false, Option,
  none, some, List, arith, leb, update, if-rel, Bool-cases, ◌==◌,
}
use gepago.Base.Action.{Out, ok, err, Ended}
use gepago.Flow.Data.{FlowTypes, Keys, Values, Plan, FlowEnv, FlowRun, StepError}
use gepago.Flow.Rewind.{end_rewind}
use gepago.Flow.Failure.{Next, at, unfinished}
use gepago.Flow.Loop.{round, run_from, new_flow_run, run_flow}
use gepago.Flow.Compiled.{CompiledPlan, LeadsTo}
use gepago.Flow.Rounds.{visited, RoundLed, round-Ends}

-- The visits that `MaxVisits` still allows, over the first steps.
abbrev pub visits_left : (ℕ → ℕ) → (ℕ → ℕ) → ℕ → ℕ
visits_left most vs zero = 0
visits_left most vs (suc k) = most k - vs k + visits_left most vs k

visited-le : (vs : ℕ → ℕ) (i k : ℕ) → vs k ≤ visited vs i k
unfolding update
visited-le vs i k = ground arith

visits_left-visited :
    (most vs : ℕ → ℕ) (i k : ℕ) → visits_left most (visited vs i) k ≤ visits_left most vs k
visits_left-visited most vs i zero = omega arith
visits_left-visited most vs i (suc k) =
    omega (arith, visited-le vs i k, visits_left-visited most vs i k)

visits_left-fewer :
    (most vs : ℕ → ℕ) (i k : ℕ)
    → i < k
    → vs i < most i
    → visits_left most (visited vs i) k < visits_left most vs k
unfolding update
visits_left-fewer most vs i zero lt few = absurd (omega (arith, lt))
visits_left-fewer most vs i (suc k) lt few = elim (Bool-cases (i == k)) [
  | inl h ↦ ground (arith, few, visits_left-visited most vs i k, h)
  | inr h ↦
      let below : i < k = ground (arith, lt, h) in
      omega (arith, visited-le vs i k, visits_left-fewer most vs i k below few)
]

-- The rounds left, once a step has been visited and the visits of steps are counted with it.
abbrev pub rounds_left : ℕ → ℕ → ℕ → ℕ
rounds_left n visits i = visits * (n + 1) + (n - i)

rounds_left-on : (n a b i j : ℕ) → a ≤ b → i < j → i < n → rounds_left n a j < rounds_left n b i
rounds_left-on n a b i j le lt inside = omega (arith, mul-le-mul_right (n + 1) le, lt, inside)

rounds_left-back : (n a b i j : ℕ) → a < b → i < n → rounds_left n a j < rounds_left n b i
rounds_left-back n a b i j lt inside =
    let scaled : a * (n + 1) + (n + 1) ≤ b * (n + 1) = omega (arith, mul-le-mul_right (n + 1) lt) in
    omega (arith, scaled, inside)

-- The steps that a run may visit: for each visit that `MaxVisits` allows, once through all of them.
abbrev pub most_rounds : (T : FlowTypes) → Plan T → ℕ
most_rounds T p = rounds_left p.steps (visits_left p.max_visits (λ k. 0) p.steps) 0

module _ (T : FlowTypes) (p : Plan T) (E : FlowEnv T) (spans : List (ℕ × ℕ))
    (compiled : CompiledPlan T spans p) where
  -- The rounds left when a run is at a step that it has not visited yet.
  abbrev rounds_at : (ℕ → ℕ) → ℕ → ℕ
  rounds_at vs i = rounds_left p.steps (visits_left p.max_visits (visited vs i) p.steps) i

  rounds_at-fewer :
      (vs : ℕ → ℕ) (i next : ℕ)
      → i < p.steps
      → LeadsTo T spans p (visited vs i) i next
      → rounds_at (visited vs i) next < rounds_at vs i
  rounds_at-fewer vs i next inside (inl on) =
      rounds_left-on p.steps _ _ i next
        (visits_left-visited p.max_visits (visited vs i) next p.steps) on inside
  rounds_at-fewer vs i next inside (inr (back, span, few)) =
      rounds_left-back p.steps _ _ i next
        (visits_left-fewer p.max_visits (visited vs i) next p.steps (omega (arith, back, inside))
          few)
        inside

  abbrev Finishes : Option (Out (StepError T) (Unit {0}) × FlowRun T) → Type 0
  Finishes r = (e : Out (StepError T) (Unit {0}) × FlowRun T) × r ≡ some e

  run_from-ends :
      (fuel i : ℕ) (f : FlowRun T)
      → rounds_at f.visits i < fuel
      → Finishes (run_from T p E fuel i f)
  unfolding run_from
  run_from-ends zero i f enough = absurd (omega (arith, enough))
  run_from-ends (suc fuel) i f enough =
      if-rel Finishes (leb p.steps i) _ _ (λ _. (end_rewind T p E true f, refl))
        (λ inside.
          go (inside_of i inside) (round T p E i f) (round-Ends T p E spans compiled i f).ended
            (λ next g. run_from-ends fuel next g))
    where
      inside_of : (i : ℕ) → leb p.steps i ≡ false → i < p.steps
      inside_of i h = ground (arith, h)

      go :
          i < p.steps
          → (r : Out (StepError T) (Next T) × FlowRun T)
          → Ended
              (λ g. (g.visits ≡ f.visits) ⊎ (g.visits ≡ visited f.visits i))
              (RoundLed T p E spans compiled (visited f.visits i) i)
              r
          → ((next : ℕ) (g : FlowRun T)
              → rounds_at g.visits next < fuel
              → Finishes (run_from T p E fuel next g))
          → Finishes (elim r.0 [
            | err e ↦ some (err e, r.1)
            | ok unfinished ↦ none
            | ok (at next) ↦ run_from T p E fuel next r.1
          ])
      go inside (err e, g) h rest = ((err e, g), refl)
      go inside (ok unfinished, g) h rest = absurd h.1
      go inside (ok (at next), g) (same, leads) rest = rest next g (
          subst (λ vs. rounds_at vs next < fuel) (sym same)
            (omega (arith, rounds_at-fewer f.visits i next inside (leads inside), enough)))

  -- A run along compiled rules ends, on any fuel above a bound that `MaxVisits` and the number of
  -- steps give.
  pub run_flow-ends :
      (fuel : ℕ) (values : Values T) (defaulted : Keys) (w : T.World)
      → most_rounds T p < fuel
      → Finishes (run_flow T p E fuel values defaulted w)
  unfolding run_flow new_flow_run
  run_flow-ends fuel values defaulted w enough =
      let fewer : visits_left p.max_visits (visited (λ k. 0) 0) p.steps
          ≤ visits_left p.max_visits (λ k. 0) p.steps =
        visits_left-visited p.max_visits (λ k. 0) 0 p.steps in
      run_from-ends fuel 0 _ (omega (arith, mul-le-mul_right (p.steps + 1) fewer, enough))
