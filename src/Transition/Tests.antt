-- ===== src/Transition/Tests.antt =====
-- pipeline_transition.go: three rules of a pipeline of five steps.
use gepago.Base.{refl, ℕ, ◌≡◌, Bool, true, false, List, [], ◌∷◌}
use gepago.Base.Int.{pos}
use gepago.Transition.Defs.{Target, step, end_target, TransitionRule}
use gepago.Transition.Skipped.{count_skips}
use gepago.Base.{◌||◌}
use gepago.Transition.Defs.{may_not_write}
use gepago.Transition.Writes.{any_skips, any_forward, may_not_write-exact}
use gepago.Base.{All, leb}
use gepago.Transition.Defs.{allows}
use gepago.Transition.Ranges.{Compiled, count_ranges, distinct_ranges}
use gepago.Transition.Covered.{covered-count}
use gepago.Transition.Counted.{facts_at, skipping-count}

abbrev rule : ℕ → ℕ → Target → Bool → TransitionRule
rule index from to rewind = record {
  index = index;
  from = from;
  to = to;
  rewind = rewind;
  on_error = false;
  always = false;
  amends = false;
}

-- One to step 3, one that ends the run, and a rewind.
abbrev rules : List TransitionRule
rules = rule 0 0 (step 3) false ∷ rule 1 1 end_target false ∷ rule 2 4 (step 2) true ∷ []

skipping-count_example : (facts_at rules 5 2).skipping ≡ pos (count_skips rules 2 5)
skipping-count_example = skipping-count rules 5 2

may_not_write-exact_example :
    may_not_write (facts_at rules 5 2) 2 ≡ (any_skips rules 2 5 || any_forward rules 2)
may_not_write-exact_example = may_not_write-exact rules 5 2

rules-Compiled : All Compiled rules
rules-Compiled = (refl, (refl, (refl, tt)))

covered-count_example :
    ((facts_at rules 5 2).covered ≡ pos (count_ranges 2 (distinct_ranges rules [])))
    × (allows (facts_at rules 5 2) ≡ leb (count_ranges 2 (distinct_ranges rules [])) 1)
covered-count_example = covered-count rules 5 2 rules-Compiled
