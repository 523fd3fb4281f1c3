-- ===== src/Transition/Built.antt =====
-- pipeline_transition.go: the plan of a run that Build makes of transitions.
use gepago.Base.{
  ℕ, ◌≡◌, refl, sym, subst, String, Bool, true, false, not, ◌&&◌, none, some, List, [], ◌∷◌, ◌==◌,
  map, All, All-zip, arith, leb→le, if-rel, option-rel, if◌then◌else◌,
}
use gepago.Base.Int.{ℤ}
use gepago.Base.Action.{Out, ok, err}
use gepago.Transition.Defs.{
  Target, step, end_target, fail_target, TransitionRule, has_span, new_transition_facts,
}
use gepago.Transition.Ranges.{distinct_ranges}
use gepago.Transition.Covered.{record_rules-Recorded}
use gepago.Transition.Spans.{RangeIn, distinct_ranges-RangeIn}
use gepago.Flow.Data.{FlowTypes, Node}
use gepago.Flow.Compiled.{Aims, RuleAt}
use gepago.Transition.Compile.{
  TransitionError, unused_visits, NamedSteps, Transition, CompiledRule, facts_rule, goes_back_to,
  name_visits, compile_all,
}
use gepago.Transition.Table.{
  TransitionTable, rules_of, facts_of, table_of, unused_name, check_transitions,
}
use gepago.Transition.Sound.{NamesSteps, SoundRule, GoodAll, compile_all-GoodAll}

module _ (T : FlowTypes) (node : ℕ → Node T) (s : NamedSteps) (names : NamesSteps s) where
  -- A table is filled with rules that are let pass.
  abbrev pub GoodTable : Out TransitionError (TransitionTable T) → Type 0
  GoodTable (err e) = Unit
  GoodTable (ok t) =
      (most : ℕ → ℕ) × (rs : List (CompiledRule T)) × (t ≡ table_of T node s most rs)
      × All (SoundRule T node s most) rs

  pub check_transitions-GoodTable :
      (visits : List (String × ℤ)) (ts : List (Transition T))
      → GoodTable (check_transitions T node s visits ts)
  unfolding check_transitions
  check_transitions-GoodTable visits ts = go (name_visits T node s visits (λ i. 0))
    where
      filled :
          (most : ℕ → ℕ) (os : Out TransitionError (List (CompiledRule T)))
          → GoodAll T node s most os
          → GoodTable (elim os [
            | err e ↦ err e
            | ok rs ↦ elim (unused_name T node s visits (facts_of T s.count rs).target) [
              | some name ↦ err (unused_visits name)
              | none ↦ ok (table_of T node s most rs)
            ]
          ])
      filled most (err e) h = tt
      filled most (ok rs) h =
          option-rel GoodTable (unused_name T node s visits (facts_of T s.count rs).target)
            (λ _. (most, rs, refl, h)) (λ name _. tt)

      go :
          (o : Out TransitionError (ℕ → ℕ))
          → GoodTable (elim o [
            | err e ↦ err e
            | ok most ↦ elim (compile_all T node s most 0 ts) [
              | err e ↦ err e
              | ok rs ↦ elim (unused_name T node s visits (facts_of T s.count rs).target) [
                | some name ↦ err (unused_visits name)
                | none ↦ ok (table_of T node s most rs)
              ]
            ]
          ])
      go (err e) = tt
      go (ok most) =
          filled most (compile_all T node s most 0 ts)
            (compile_all-GoodAll T node s most 0 ts names)

  module _ (most : ℕ → ℕ) (rs : List (CompiledRule T)) where
    abbrev pub the_rules : List TransitionRule
    the_rules = map (facts_rule T) rs

    abbrev pub the_spans : List (ℕ × ℕ)
    the_spans = distinct_ranges the_rules []

    pub facts_of-spans : (facts_of T s.count rs).spans ≡ the_spans
    facts_of-spans = (record_rules-Recorded the_rules s.count new_transition_facts).0

    -- A rule aims as runs need, where its range is recorded.
    SoundRule-Aims :
        (r : CompiledRule T)
        → SoundRule T node s most r
        → RangeIn the_spans (facts_rule T r)
        → Aims T the_spans r.rule.from r.rule.to r.rule.rewind
    SoundRule-Aims r sound range = go r.rule.to r.rule.rewind sound.rewinds range
      where
        go :
            (t : Target) (b : Bool)
            → b ≡ goes_back_to T node s r.rule.from t
            → ((u : ℕ) → t ≡ step u → b ≡ true → has_span (u, r.rule.from) the_spans ≡ true)
            → Aims T the_spans r.rule.from t b
        go (step t) true back held = (leb→le t r.rule.from (sym back), held t refl refl)
        go (step t) false on held = ground (arith, on)
        go end_target b none_back held = none_back
        go fail_target b none_back held = none_back

  abbrev pub AimsRight : List (ℕ × ℕ) → CompiledRule T → Type 0
  AimsRight spans r = Aims T spans r.rule.from r.rule.to r.rule.rewind

  pub rules_of-RuleAt :
      (spans : List (ℕ × ℕ)) (on_error : Bool) (i : ℕ) (rs : List (CompiledRule T))
      → All (AimsRight spans) rs
      → All (RuleAt T spans i) (rules_of T on_error i rs)
  rules_of-RuleAt spans on_error i [] h = tt
  rules_of-RuleAt spans on_error i (r ∷ rs) (aims, h) =
      let rest = rules_of-RuleAt spans on_error i rs h in
      if-rel (All (RuleAt T spans i))
        (r.rule.from == i && (if on_error then r.on_error else not r.on_error)) _ _
        (λ here. (placed r aims (at_step r.rule.from _ here), rest)) (λ _. rest)
    where
      at_step : (from : ℕ) (b : Bool) → (from == i && b) ≡ true → from ≡ i
      at_step from b h = ground (arith, h)

      placed : (r : CompiledRule T) → AimsRight spans r → r.rule.from ≡ i → RuleAt T spans i r.rule
      placed r aims same = (same, subst (λ k. Aims T spans k r.rule.to r.rule.rewind) same aims)

  -- What holds of the rules that Build sees holds of the compiled ones.
  All-facts_rule :
      (P : TransitionRule → Type 0) (rs : List (CompiledRule T))
      → All P (map (facts_rule T) rs)
      → All (λ r. P (facts_rule T r)) rs
  All-facts_rule P [] h = tt
  All-facts_rule P (r ∷ rs) (h, hs) = (h, All-facts_rule P rs hs)

  pub All-map_facts :
      (P : TransitionRule → Type 0) (rs : List (CompiledRule T))
      → All (λ r. P (facts_rule T r)) rs
      → All P (map (facts_rule T) rs)
  All-map_facts P [] h = tt
  All-map_facts P (r ∷ rs) (h, hs) = (h, All-map_facts P rs hs)

  pub sound-AimsRight :
      (most : ℕ → ℕ) (rs : List (CompiledRule T))
      → All (SoundRule T node s most) rs
      → All (AimsRight (the_spans most rs)) rs
  sound-AimsRight most rs sound = All-zip rs (SoundRule-Aims most rs) sound (
      All-facts_rule (RangeIn (the_spans most rs)) rs
        (distinct_ranges-RangeIn (the_rules most rs) []))
