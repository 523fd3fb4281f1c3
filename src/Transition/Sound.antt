-- ===== src/Transition/Sound.antt =====
-- pipeline_transition.go: the rules that `compileTransition` lets pass.
use gepago.Base.{
  ℕ, ◌+◌, ◌<◌, ◌≤◌, ◌≡◌, refl, ap, sym, ◌∙◌, String, Bool, true, false, none, some, List, [], ◌∷◌,
  All, arith, str_eq, option-rel, if◌then◌else◌,
}
use gepago.Base.Action.{Out, ok, err}
use gepago.Transition.Defs.{Target, step}
use gepago.Flow.Data.{FlowTypes, Node}
use gepago.Transition.Compile.{
  TransitionError, NamedSteps, Transition, CompiledRule, goes_back_to, find_step, find_target,
  check_rule, check_rewind, compile_transition, compile_all,
}

-- The map of names holds steps of the pipeline.
abbrev pub NamesSteps : NamedSteps → Type 0
NamesSteps s = (name : String) (i : ℕ) → s.index name ≡ some i → i < s.count

module _ (T : FlowTypes) (node : ℕ → Node T) (s : NamedSteps) (most : ℕ → ℕ) where
  -- A rule that is let pass leaves a step of the pipeline, is a rewind when it goes back, and goes back
  -- only to a step that may be visited twice.
  pub record SoundRule (r : CompiledRule T) : Type 0 where
    pub inside : r.rule.from < s.count
    pub rewinds : r.rule.rewind ≡ goes_back_to T node s r.rule.from r.rule.to
    pub allowed : (t : ℕ) → r.rule.to ≡ step t → r.rule.rewind ≡ true → 2 ≤ most t

  abbrev Good : Out TransitionError (CompiledRule T) → Type 0
  Good (ok r) = SoundRule r
  Good (err e) = Unit

  abbrev pub GoodAll : Out TransitionError (List (CompiledRule T)) → Type 0
  GoodAll (ok rs) = All SoundRule rs
  GoodAll (err e) = Unit

  find_step-inside :
      (name : String) (i : ℕ) → NamesSteps s → find_step T node s name ≡ some i → i < s.count
  unfolding find_step
  find_step-inside name i names h = go (str_eq (s.trim name) "") h
    where
      go : (b : Bool) → (if b then none else s.index (s.trim name)) ≡ some i → i < s.count
      go true e = absurd (cc)
      go false e = names (s.trim name) i e

  check_rule-allowed :
      (i : ℕ) (t : Transition T) (from u : ℕ)
      → check_rule T node s most i t from (step u) ≡ none
      → goes_back_to T node s from (step u) ≡ true
      → 2 ≤ most u
  unfolding check_rule check_rewind
  check_rule-allowed i t from u h back = ground (arith, h, back)

  compile_transition-Good :
      (i : ℕ) (t : Transition T) → NamesSteps s → Good (compile_transition T node s most i t)
  unfolding compile_transition
  compile_transition-Good i t names =
      option-rel Good (find_step T node s t.from) (λ _. tt)
        (λ from found.
          option-rel Good (find_target T node s t.to) (λ _. tt)
            (λ to _.
              option-rel Good (check_rule T node s most i t from to)
                (λ passes. record {
                  inside = find_step-inside t.from from names found;
                  rewinds = refl;
                  allowed = λ u to_step back. allowed_at from u to to_step passes back;
                })
                (λ e _. tt)))
    where
      allowed_at :
          (from u : ℕ) (to : Target)
          → to ≡ step u
          → check_rule T node s most i t from to ≡ none
          → goes_back_to T node s from to ≡ true
          → 2 ≤ most u
      allowed_at from u to same h back =
          check_rule-allowed i t from u (ap (check_rule T node s most i t from) (sym same) ∙ h)
            (ap (goes_back_to T node s from) (sym same) ∙ back)

  pub compile_all-GoodAll :
      (i : ℕ) (ts : List (Transition T)) → NamesSteps s → GoodAll (compile_all T node s most i ts)
  unfolding compile_all
  compile_all-GoodAll i [] names = tt
  compile_all-GoodAll i (t ∷ ts) names =
      go (compile_transition T node s most i t) (compile_transition-Good i t names)
        (compile_all T node s most (i + 1) ts) (compile_all-GoodAll (i + 1) ts names)
    where
      go :
          (o : Out TransitionError (CompiledRule T))
          → Good o
          → (os : Out TransitionError (List (CompiledRule T))) → GoodAll os
          → GoodAll
              (elim o [ err e ↦ err e | ok r ↦ elim os [ err e ↦ err e | ok rs ↦ ok (r ∷ rs) ] ])
      go (err e) h os hs = tt
      go (ok r) h (err e) hs = tt
      go (ok r) h (ok rs) hs = (h, hs)
