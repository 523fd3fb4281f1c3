-- ===== src/Optimizer/ResumeTests.antt =====
-- optimizer_state.go and optimizer.go: a run that goes on from a state saved after the seed was
-- evaluated.
use gepago.Base.{◌≡◌, ◌↔◌, refl, true, false, none, some, [], ◌∷◌, arith}
use gepago.Base.Int.{pos}
use gepago.Frontier.Defs.{
  compute_frontier, frontier_weights, prune, instance_winners, winners_from, wins, win, bump, best,
  best_from, best_step, score, find, score_dimensions, see_records, see_scores, see_all_objectives,
  see_objectives, see, compare_dimensions, sort_strings, sort_in, dominated_by_candidate, erase,
}
use gepago.Frontier.Tests.{whole}
use gepago.Optimizer.Monad.{ok}
use gepago.Optimizer.Tests.{
  plain, surroundings, config, seed_record, fresh, ledger_of, more_than_enough,
}
use gepago.Optimizer.Saved.{
  SavedState, validate_state, loaded, ResumeErrors, start_loaded, run_from_start,
}
use gepago.Optimizer.Valid.{ValidState, validate_state-none_iff}
use gepago.Optimizer.Started.{IsEmpty, Carries, SameConfig, start_loaded-resumes_iff}
use gepago.Optimizer.Resumed.{SavedInv, EndsGrown, run_from_start-ends}

abbrev saved : SavedState whole plain
saved = record {
  run_id = "run";
  started = true;
  ended = false;
  candidates = seed_record ∷ [];
  proposal_records = [];
  lessons = [];
  best_candidate_id = "seed";
  frontier_ids = "seed" ∷ [];
  metric_calls = pos 2;
  iterations = pos 0;
  ledger = ledger_of 2;
  ledger_is_zero = false;
  spans = [];
  config_fingerprint = "config";
}

abbrev refusals : ResumeErrors whole plain config surroundings
refusals = record {
  invalid = λ e. "invalid";
  other_fingerprint = λ was is. "fingerprint";
  unreadable = λ e. e;
}

validate_state-none_iff_example :
    (validate_state whole plain surroundings saved ≡ none)
    ↔ ValidState whole plain surroundings saved
validate_state-none_iff_example = validate_state-none_iff whole plain surroundings saved

seed_frontier : "seed" ∷ [] ≡ compute_frontier whole (seed_record ∷ [])
unfolding compute_frontier frontier_weights prune instance_winners winners_from wins win bump best
    best_from best_step score find score_dimensions see_records see_scores see_all_objectives
    see_objectives see compare_dimensions sort_strings sort_in dominated_by_candidate erase
seed_frontier = refl

saved-ValidState : ValidState whole plain surroundings saved
saved-ValidState = record {
  named = (refl, refl, refl);
  counts = (omega arith, omega arith, omega arith);
  records = (((refl, omega arith), tt), (refl, tt));
  best = (refl, refl);
  frontier = (omega arith, (refl, tt), (refl, tt));
}

saved-SavedInv : SavedInv whole plain config surroundings refusals saved
saved-SavedInv = record {
  bounded = omega arith;
  counted = refl;
  front = seed_frontier;
  taught = omega arith;
}

saved_is_full : ¬ IsEmpty whole plain saved
saved_is_full e = absurd (cc (e.unnamed.1))

start_loaded-resumes_iff_example :
    (let r = start_loaded whole plain config surroundings refusals (loaded saved) fresh in
      ((r.0 ≡ ok tt) × Carries whole plain saved r.1.state) ↔ (
        ValidState whole plain surroundings saved
        × SameConfig whole plain config surroundings saved))
start_loaded-resumes_iff_example =
    start_loaded-resumes_iff whole plain config surroundings refusals saved fresh saved_is_full

run_from_start-ends_example : EndsGrown whole plain config surroundings refusals saved (
    run_from_start whole plain config surroundings refusals true
      (some (λ w. (loaded saved, w)))
      10
      fresh)
run_from_start-ends_example =
    run_from_start-ends whole plain config surroundings refusals (λ w. (loaded saved, w)) saved 10
      fresh refl saved_is_full saved-ValidState refl saved-SavedInv more_than_enough
