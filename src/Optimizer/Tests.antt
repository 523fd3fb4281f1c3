-- ===== src/Optimizer/Tests.antt =====
-- optimizer.go: a run over two examples, with a proposal that is better.
use gepago.Base.{
  ◌≡◌, some, false, ◌↔◌, All, ℕ, zero, suc, ◌+◌, ◌-◌, ◌≤◌, ◌<◌, refl, String, true, none, List, [],
  ◌∷◌, length, ltb, str_eq, ◌==◌, if◌then◌else◌, arith,
}
use gepago.Base.Int.{pos}
use gepago.Usage.{no_usage, UsageLedger}
use gepago.Frontier.Defs.{CandidateRecord, compute_frontier}
use gepago.Frontier.Tests.{whole, whole-IsOrdered, scored, three}
use gepago.Frontier.Keys.{has}
use gepago.Optimizer.Select.{weight, pick_weighted, better_of, best_by_validation}
use gepago.Optimizer.Weighted.{weight_before, pick_weighted-some_iff, best_by_validation-AtLeast}
use gepago.Optimizer.Data.{
  Types, Candidate, Example, EvaluationItem, OptimizationConfig, Reporter, Env,
}
use gepago.Optimizer.Scores.{validation_set}
use gepago.Optimizer.Monad.{St}
use gepago.Optimizer.Loop.{run_iteration, run_loop, initialize_state}
use gepago.Optimizer.Keeps.{Ends}
use gepago.Optimizer.Invariant.{Inv, record_ids}
use gepago.Optimizer.Loop.{run}
use gepago.Optimizer.Scores.{config_valid}
use gepago.Optimizer.Whole.{EndsBounded, run-ends}
use gepago.Optimizer.Run.{
  Bounded, Went, Stopped, run_iteration-Inv, run_loop-ends, initialize_state-Inv,
}

abbrev pub plain : Types
plain = record {
  Input = ℕ;
  Payload = ℕ;
  Dataset = ℕ;
  Metadata = ℕ;
  Error = String;
  Rng = ℕ;
  World = ℕ;
}

abbrev quality : Candidate → ℕ
quality [] = 0
quality ((k, v) ∷ m) = if str_eq v "better" then 2 else 1

abbrev graded : Candidate → List (Example whole plain) → List (EvaluationItem whole plain)
graded c [] = []
graded c (e ∷ es) =
    record { example_id = e.id; score = quality c; objective_scores = []; payload = 0 }
    ∷ graded c es

abbrev in_order : ℕ → List ℕ
in_order zero = []
in_order (suc n) = n ∷ in_order n

abbrev pub seed_record : CandidateRecord whole
seed_record = record {
  id = "seed";
  candidate = ("prompt", "first") ∷ [];
  parent_ids = [];
  train_score = 0;
  validation_score = 1;
  scores_by_example = ("a", 1) ∷ ("b", 1) ∷ [];
  objective_scores_by_example = [];
}

abbrev quiet : Reporter whole plain
quiet = record { last_usage = none; last_model_calls = none }

abbrev pub surroundings : Env whole plain
surroundings = record {
  evaluate = λ c es capture w. (record { items = graded c es; usage = no_usage }, none, w);
  build_dataset = λ c r components. 0;
  set_lessons = λ lessons w. w;
  propose = λ c d components w. (("prompt", "better") ∷ [], none, w);
  proposer = quiet;
  proposal_metadata = λ w. [];
  propose_merge = none;
  merge_proposer = quiet;
  select_candidate = λ s rng. (seed_record, rng);
  select_components = λ s parent components. components;
  should_accept = λ before after. ltb before after;
  observe = λ event w. w + 1;
  append_event = λ event w. (none, w);
  save_state = λ s w. (none, w);
  format_score = λ score. if score == 0 then "0.0000" else "1.0000";
  wrong_count = λ expected got. "wrong count";
  new_id = λ w. ("next", w + 1);
  new_rand = λ seed. 0;
  perm = λ n rng. (in_order n, rng);
  intn = λ n rng. (0, rng);
  config_fingerprint = λ c es. "config";
  blank = λ v. str_eq v "";
}

abbrev two_examples : List (Example whole plain)
two_examples = record { id = "a"; input = 1 } ∷ record { id = "b"; input = 2 } ∷ []

abbrev pub config : OptimizationConfig whole plain
config = record {
  seed_candidate = ("prompt", "first") ∷ [];
  trainset = two_examples;
  valset = [];
  components = "prompt" ∷ [];
  enable_merge = true;
  max_metric_calls = 9;
  minibatch_size = 1;
  seed = pos 7;
}

abbrev pub ledger_of : ℕ → UsageLedger
ledger_of n = record {
  runs = pos 1;
  turns = pos 0;
  model_calls = pos 0;
  tool_calls = pos 0;
  metric_calls = pos n;
  input_tokens = pos 0;
  output_tokens = pos 0;
  reasoning_tokens = pos 0;
  cached_input_tokens = pos 0;
  cache_creation_tokens = pos 0;
  total_tokens = pos 0;
  total_duration = pos 0;
}

abbrev pub fresh : St whole plain
fresh = record {
  state = record {
    run_id = "run";
    config_fingerprint = "config";
    iterations = 0;
    metric_calls = 0;
    candidates = [];
    best_candidate_id = "";
    frontier_ids = [];
    proposal_records = [];
    lessons = [];
    ledger = ledger_of 0;
    spans = [];
  };
  world = 0;
}

abbrev seeded : St whole plain
seeded = record fresh {
  state = record (fresh.state) {
    metric_calls = 2;
    candidates = seed_record ∷ [];
    best_candidate_id = "seed";
    frontier_ids = compute_frontier whole (seed_record ∷ []);
    ledger = ledger_of 2;
  };
}

seeded-Inv : Inv whole plain config 2 seeded.state
seeded-Inv = record {
  grown = omega arith;
  bounded = omega arith;
  counted = refl;
  front = refl;
  best = refl;
  taught = omega arith;
}

run_iteration-Inv_example :
    Ends
      (Inv whole plain config 2)
      (Went whole plain config surroundings 2)
      (run_iteration whole plain config surroundings)
      seeded
run_iteration-Inv_example = run_iteration-Inv whole plain config surroundings 2 seeded seeded-Inv

enough : config.max_metric_calls - 2 < 8
enough = omega arith

run_loop-ends_example :
    Stopped whole plain config surroundings 2 (run_loop whole plain config surroundings 8 seeded)
run_loop-ends_example = run_loop-ends whole plain config surroundings 8 seeded 2 seeded-Inv enough

seed_fits : length (validation_set whole plain config) ≤ config.max_metric_calls
unfolding validation_set
seed_fits = omega arith

initialize_state-Inv_example :
    Ends
      (Bounded whole plain config surroundings)
      (λ _. Inv whole plain config 0)
      (initialize_state whole plain config surroundings)
      fresh
initialize_state-Inv_example = initialize_state-Inv whole plain config surroundings fresh seed_fits

abbrev wins_of : List (String × ℕ)
wins_of = ("left", 1) ∷ ("right", 3) ∷ []

pick_weighted-some_iff_example :
    (pick_weighted ("left" ∷ "right" ∷ []) wins_of 2 ≡ some "right") ↔ (
      (weight_before "right" ("left" ∷ "right" ∷ []) wins_of ≤ 2)
      × (2 < weight_before "right" ("left" ∷ "right" ∷ []) wins_of + weight wins_of "right"))
pick_weighted-some_iff_example =
    pick_weighted-some_iff wins_of ("left" ∷ "right" ∷ []) 2 "right" (refl, (refl, tt)) refl

left_is_best : best_by_validation whole three ≡ some (scored "left" 3 1)
unfolding best_by_validation better_of
left_is_best = refl

best_by_validation-AtLeast_example :
    (has "left" (record_ids three) ≡ true) × All (λ r. ltb 3 r.validation_score ≡ false) three
best_by_validation-AtLeast_example =
    best_by_validation-AtLeast whole whole-IsOrdered three (scored "left" 3 1) left_is_best

pub config-valid : config_valid whole plain config ≡ true
unfolding config_valid validation_set
config-valid = refl

pub more_than_enough : config.max_metric_calls < 10
more_than_enough = omega arith

run-ends_example :
    EndsBounded whole plain config surroundings (run whole plain config surroundings 10 fresh)
run-ends_example = run-ends whole plain config surroundings 10 fresh config-valid more_than_enough
