-- ===== src/Frontier/Tests.antt =====
-- optimizer_support.go: scores that are numbers, and three records.
use gepago.Base.{ℕ, ◌+◌, ◌/◌, ◌≡◌, ◌↔◌, refl, String, true, false, List, [], ◌∷◌, ltb, ◌==◌, arith}
use gepago.Floats.{Floats, IsOrdered}
use gepago.Frontier.Defs.{
  CandidateRecord, keys, find, see, compare_dimensions, score, score_by_id, see_scores,
  see_objectives, see_all_objectives, see_records, score_dimensions, dominates_from, dominates,
  dominated_by_candidate, prune, compute_frontier,
}
use gepago.Frontier.Keys.{has}
use gepago.Frontier.Dominance.{dominates_trans, dominates_irrefl}
use gepago.Frontier.Prune.{has-prune_iff}
use gepago.Frontier.Compute.{IsTop, Undominated, has-compute_frontier_iff}

abbrev pub whole : Floats
whole = record {
  Num = ℕ;
  nought = 0;
  plus = λ a b. a + b;
  over = λ a n. a / n;
  lt = ltb;
  eq = λ a b. a == b;
}

pub whole-IsOrdered : IsOrdered whole
whole-IsOrdered = record {
  lt_irrefl = λ a. ground arith;
  lt_trans = λ a b c h k. ground (arith, h, k);
  lt_connex = λ a b h k. ground (arith, h, k);
  eq_iff = λ a b. (λ h. ground (arith, h), λ h. ground (arith, h));
}

abbrev pub scored : String → ℕ → ℕ → CandidateRecord whole
scored id x y = record {
  id = id;
  candidate = [];
  parent_ids = [];
  train_score = 0;
  validation_score = x;
  scores_by_example = ("a", x) ∷ ("b", y) ∷ [];
  objective_scores_by_example = [];
}

abbrev pub three : List (CandidateRecord whole)
three = scored "seed" 1 1 ∷ scored "left" 3 1 ∷ scored "right" 3 2 ∷ []

seed_below_left : dominates whole "left" "seed" three ≡ true
unfolding dominates dominates_from score_dimensions see_records see_scores see_all_objectives
    see_objectives see compare_dimensions score_by_id score find
seed_below_left = refl

left_below_right : dominates whole "right" "left" three ≡ true
unfolding dominates dominates_from score_dimensions see_records see_scores see_all_objectives
    see_objectives see compare_dimensions score_by_id score find
left_below_right = refl

dominates_trans_example : dominates whole "right" "seed" three ≡ true
dominates_trans_example =
    dominates_trans whole whole-IsOrdered "right" "left" "seed" three left_below_right
      seed_below_left

dominates_irrefl_example : dominates whole "left" "left" three ≡ false
dominates_irrefl_example = dominates_irrefl whole whole-IsOrdered "left" three

abbrev weights : List (String × ℕ)
weights = ("left", 1) ∷ ("right", 2) ∷ []

visits_all : (j : String) → has j (keys weights) ≡ true → has j (keys weights) ≡ true
visits_all j h = h

has-prune_iff_example : (has "left" (keys (prune whole (keys weights) weights three)) ≡ true) ↔ (
    (has "left" (keys weights) ≡ true)
    × (dominated_by_candidate whole "left" (keys weights) three ≡ false))
has-prune_iff_example =
    has-prune_iff whole three whole-IsOrdered (keys weights) weights "left" (refl, (refl, tt))
      visits_all

has-compute_frontier_iff_example :
    (has "right" (compute_frontier whole three) ≡ true)
    ↔ (IsTop whole "right" three × Undominated whole "right" (λ j. IsTop whole j three) three)
has-compute_frontier_iff_example = has-compute_frontier_iff whole whole-IsOrdered three "right"
