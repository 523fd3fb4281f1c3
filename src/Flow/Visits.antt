-- ===== src/Flow/Visits.antt =====
-- pipeline_transition_run.go: how often a run visits the target of a rewind.
use gepago.Base.{
  ℕ, zero, suc, ◌+◌, ◌<◌, ◌≤◌, ◌≡◌, refl, subst, sym, ◌⊎◌, inl, inr, true, false, Option, none,
  some, List, arith, leb, leb→le, update, if-rel, Bool-cases, ◌==◌,
}
use gepago.Base.Action.{Out, ok, err, Ended}
use gepago.Transition.Defs.{has_span}
use gepago.Flow.Data.{FlowTypes, Keys, Values, Plan, FlowEnv, FlowRun, StepError}
use gepago.Flow.Rewind.{end_rewind}
use gepago.Flow.Failure.{Next, at, unfinished}
use gepago.Flow.Loop.{round, run_from, new_flow_run, run_flow}
use gepago.Flow.Compiled.{CompiledPlan, SpansApart, LeadsTo, AtVisit}
use gepago.Flow.Stays.{end_rewind-Ends}
use gepago.Flow.Rounds.{visited, RoundLed, round-Ends}

module _ (T : FlowTypes) (p : Plan T) (E : FlowEnv T) (spans : List (ℕ × ℕ))
    (compiled : CompiledPlan T spans p) (laid : SpansApart T spans p) where
  -- No target of a rewind has been visited more often than `MaxVisits` allows.
  abbrev WithinVisits : (ℕ → ℕ) → Type 0
  WithinVisits vs = (t b : ℕ) → has_span (t, b) spans ≡ true → vs t ≤ p.max_visits t

  -- Before a visit of step `i`: the steps from it on that have been visited are in a range with it, and
  -- the visit is one that `MaxVisits` allows.
  record Fits (vs : ℕ → ℕ) (i : ℕ) : Type 0 where
    pub within : WithinVisits vs
    pub again :
        (k : ℕ)
        → i ≤ k
        → 0 < vs k
        → (a : ℕ) × (b : ℕ) × (has_span (a, b) spans ≡ true) × (a ≤ i) × (k ≤ b)
    pub free : (b : ℕ) → has_span (i, b) spans ≡ true → vs i < p.max_visits i

  visited_other : (vs : ℕ → ℕ) (i k : ℕ) → i < k → visited vs i k ≡ vs k
  unfolding update
  visited_other vs i k lt = ground (arith, lt)

  visited-Within : (vs : ℕ → ℕ) (i : ℕ) → Fits vs i → WithinVisits (visited vs i)
  unfolding update
  visited-Within vs i fits t b span = elim (Bool-cases (t == i)) [
    | inl h ↦
        let here : t ≡ i = ground (arith, h) in
        let few : vs i < p.max_visits i =
          fits.free b (subst (λ k. has_span (k, b) spans ≡ true) here span) in
        let most : vs t + 1 ≤ p.max_visits t =
          subst (λ k. vs k + 1 ≤ p.max_visits k) (sym here) (omega (arith, few)) in
        ground (arith, most, fits.within t b span)
    | inr h ↦ ground (arith, h, fits.within t b span)
  ]

  -- The run goes on to a later step: a range that it comes into the middle of is one that it was in.
  on-Fits : (vs : ℕ → ℕ) (i next : ℕ) → Fits vs i → i < next → Fits (visited vs i) next
  on-Fits vs i next fits lt = record {
    within = visited-Within vs i fits;
    again = λ k le some_visit.
        let (a, b, span, before, after) =
          fits.again k (omega (arith, lt, le))
            (subst (λ n. 0 < n) (visited_other vs i k (omega (arith, lt, le))) some_visit) in
        (a, b, span, omega (arith, before, lt), after);
    free = λ b span.
        subst (λ n. n < p.max_visits next) (sym (visited_other vs i next lt)) (first b span);
  }
    where
      first : (b : ℕ) → has_span (next, b) spans ≡ true → vs next < p.max_visits next
      first b span = elim (Bool-cases (vs next == 0)) [
        | inl none_yet ↦ let most = laid.allowed next b span in ground (arith, none_yet, most)
        | inr some_visit ↦
            let (a, d, other, before, after) =
              fits.again next (omega (arith, lt)) (ground (arith, some_visit)) in
            let (same, _) =
              laid.apart a d next b next other span (omega (arith, before, lt), after)
                (omega arith, laid.ordered next b span) in
            absurd (omega (arith, same, before, lt))
      ]

  -- The run goes back to the start of the range that ends here.
  back-Fits :
      (vs : ℕ → ℕ) (i next : ℕ)
      → Fits vs i
      → next ≤ i
      → has_span (next, i) spans ≡ true
      → visited vs i next < p.max_visits next
      → Fits (visited vs i) next
  back-Fits vs i next fits le span few = record {
    within = visited-Within vs i fits;
    again = λ k from some_visit. elim (Bool-cases (leb k i)) [
      | inl inside ↦ (next, i, span, omega arith, leb→le k i inside)
      | inr past ↦ absurd (beyond k (above k past) some_visit)
    ];
    free = λ b span'. few;
  }
    where
      above : (k : ℕ) → leb k i ≡ false → i < k
      above k h = ground (arith, h)

      beyond : (k : ℕ) → i < k → 0 < visited vs i k → ⊥
      beyond k lt some_visit =
          let (a, b, other, before, after) =
            fits.again k (omega (arith, lt))
              (subst (λ n. 0 < n) (visited_other vs i k lt) some_visit) in
          let (_, same) =
            laid.apart a b next i i other span (before, omega (arith, lt, after))
              (le, omega arith) in
          omega (arith, same, lt, after)

  next-Fits :
      (vs : ℕ → ℕ) (i next : ℕ)
      → Fits vs i
      → LeadsTo T spans p (visited vs i) i next
      → Fits (visited vs i) next
  next-Fits vs i next fits (inl lt) = on-Fits vs i next fits lt
  next-Fits vs i next fits (inr (le, span, few)) = back-Fits vs i next fits le span few

  abbrev EndsWithin : Option (Out (StepError T) (Unit {0}) × FlowRun T) → Type 0
  EndsWithin none = Unit
  EndsWithin (some e) = WithinVisits e.1.visits

  ended_rewind-Within :
      (f : FlowRun T) → WithinVisits f.visits → EndsWithin (some (end_rewind T p E true f))
  ended_rewind-Within f h =
      go (end_rewind T p E true f) (end_rewind-Ends T p E f.visits 0 true f refl).ended
    where
      go :
          (e : Out (StepError T) (Unit {0}) × FlowRun T)
          → Ended (AtVisit T f.visits 0) (λ _. AtVisit T f.visits 0) e
          → EndsWithin (some e)
      go (ok u, g) j = subst WithinVisits (sym j.0) h
      go (err x, g) j = subst WithinVisits (sym j.0) h

  run_from-Within :
      (fuel i : ℕ) (f : FlowRun T) → Fits f.visits i → EndsWithin (run_from T p E fuel i f)
  unfolding run_from
  run_from-Within zero i f fits = tt
  run_from-Within (suc fuel) i f fits =
      if-rel EndsWithin (leb p.steps i) _ _ (λ _. ended_rewind-Within f fits.within)
        (λ inside.
          go (inside_of i inside) (round T p E i f) (round-Ends T p E spans compiled i f).ended
            (λ next g. run_from-Within fuel next g))
    where
      inside_of : (i : ℕ) → leb p.steps i ≡ false → i < p.steps
      inside_of i h = ground (arith, h)

      go :
          i < p.steps
          → (r : Out (StepError T) (Next T) × FlowRun T)
          → Ended
              (λ g. (g.visits ≡ f.visits) ⊎ (g.visits ≡ visited f.visits i))
              (RoundLed T p E spans compiled (visited f.visits i) i)
              r
          → ((next : ℕ) (g : FlowRun T)
              → Fits g.visits next
              → EndsWithin (run_from T p E fuel next g))
          → EndsWithin (elim r.0 [
            | err e ↦ some (err e, r.1)
            | ok unfinished ↦ none
            | ok (at next) ↦ run_from T p E fuel next r.1
          ])
      go inside (err e, g) (inl same) rest = subst WithinVisits (sym same) fits.within
      go inside (err e, g) (inr same) rest =
          subst WithinVisits (sym same) (visited-Within f.visits i fits)
      go inside (ok unfinished, g) h rest = absurd h.1
      go inside (ok (at next), g) (same, leads) rest =
          rest next g
            (subst (λ vs. Fits vs next) (sym same) (next-Fits f.visits i next fits (leads inside)))

  -- However a run along compiled rules ends, where the ranges of its rewinds are apart and each may be
  -- landed on, it has visited no target of a rewind more often than `MaxVisits` allows.
  pub run_flow-visits_le :
      (fuel : ℕ) (values : Values T) (defaulted : Keys) (w : T.World)
      (e : Out (StepError T) (Unit {0}) × FlowRun T) (t b : ℕ)
      → run_flow T p E fuel values defaulted w ≡ some e
      → has_span (t, b) spans ≡ true
      → e.1.visits t ≤ p.max_visits t
  unfolding run_flow new_flow_run
  run_flow-visits_le fuel values defaulted w e t b h =
      let none_yet : Fits (λ k. 0) 0 = record {
        within = λ t b span. omega arith;
        again = λ k le some_visit. absurd (omega (arith, some_visit));
        free = λ b span. laid.allowed 0 b span;
      } in
      subst EndsWithin h (run_from-Within fuel 0 _ none_yet) t b
