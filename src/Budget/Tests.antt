-- ===== src/Budget/Tests.antt =====
-- pipeline_budget.go: runs with budgets.
use gepago.Base.{◌<◌, ◌≡◌, ◌≢◌, ◌↔◌, refl, none, some, [], ◌∷◌, All, update, arith}
use gepago.Base.Int.{pos, ◌<ℤ◌, ◌≤ℤ◌, ◌+ℤ◌, ◌-ℤ◌}
use gepago.Usage.{no_usage}
use gepago.Budget.Limits.{RunBudget, tokens_exceeded, step_limit}
use gepago.Budget.Store.{
  Frame, Store, new_run, start_run, enter_step, spent, fail, enforce, over_tokens, check_tokens,
  over_step_tokens, enforce_step, check_step_tokens,
}
use gepago.Budget.Walk.{
  Clock, walk, over_duration, check_frame, check, refusal_run, refusal_frame, refusal,
  reserve_frame, reserve, admit, over_calls, check_calls,
}
use gepago.Budget.Meter.{budget_remaining}
use gepago.Budget.Left.{SomeLeft, LimitsLeft, budget_remaining-SomeLeft}
use gepago.Budget.Sticky.{Stays}
use gepago.Budget.Room.{Room, admit-none_iff}
use gepago.Budget.Reserve.{Live, around, counted_if, admit-counts, admit_refused-Stays}
use gepago.Budget.Reach.{Reach, here, after, starts, admits, Reach-calls_within, Reach-stopped}

abbrev empty_store : Store
empty_store = record {
  cells = λ i. record { usage = no_usage; unbudgeted = no_usage; returned = []; cause = none };
  budgets = λ i.
      new_run
        (record {
          max_duration = pos 0;
          max_model_calls = pos 0;
          max_tokens = pos 0;
          per_step_tokens = [];
        })
        (pos 0);
  next_cell = 0;
  next_budget = 0;
  reported = λ i. pos 0;
  next_call = 0;
}

abbrev two_calls : RunBudget
two_calls = record {
  max_duration = pos 60;
  max_model_calls = pos 2;
  max_tokens = pos 1000;
  per_step_tokens = ("draft", pos 100) ∷ [];
}

abbrev pub at_ten : Clock
at_ten i = pos 10

abbrev pub run_frame : Frame
run_frame = record { cell = 0; budget = 0; step = "" } ∷ []

abbrev draft_frame : Frame
draft_frame = record { cell = 1; budget = 0; step = "draft" } ∷ run_frame

abbrev pub started : Store
started = (start_run two_calls (pos 0) [] empty_store).1

abbrev drafting : Store
drafting = (enter_step "draft" run_frame started).1

abbrev failed : Store
failed = record drafting {
  budgets = λ i. record (drafting.budgets i) { err = some (tokens_exceeded (pos 1000) (pos 1200)) };
}

admitted : (admit at_ten draft_frame drafting).0 ≡ none
unfolding admit refusal check walk check_frame over_duration check_tokens over_tokens enforce fail
    check_step_tokens over_step_tokens enforce_step step_limit spent start_run enter_step
    refusal_frame refusal_run over_calls check_calls ◌+ℤ◌ ◌-ℤ◌ update
admitted = refl

drafting-Live : Live drafting.next_budget draft_frame
unfolding start_run enter_step
drafting-Live = (omega arith, (omega arith, tt))

admit-none_iff_example :
    ((admit at_ten draft_frame drafting).0 ≡ none) ↔ All (Room at_ten drafting) draft_frame
admit-none_iff_example = admit-none_iff at_ten draft_frame drafting

admit-counts_example :
    (admit at_ten draft_frame drafting).1.budgets 0
    ≡ counted_if (around 0 draft_frame) (drafting.budgets 0)
admit-counts_example = admit-counts at_ten draft_frame drafting 0 drafting-Live admitted

started-Live : Live started.next_budget run_frame
unfolding start_run
started-Live = (omega arith, tt)

abbrev counted : Store
counted = (admit at_ten run_frame started).1

counted-Reach : Reach empty_store counted
counted-Reach =
    after (after here (starts two_calls (pos 0) [] empty_store))
      (admits at_ten run_frame started started-Live)

counted-live : 0 < counted.next_budget
unfolding admit refusal check walk check_frame over_duration check_tokens over_tokens enforce fail
    spent start_run refusal_frame refusal_run over_calls check_calls ◌+ℤ◌ ◌-ℤ◌ update reserve
    reserve_frame
counted-live = omega arith

counted-limited : pos 0 <ℤ (counted.budgets 0).limits.max_model_calls
unfolding admit refusal check walk check_frame over_duration check_tokens over_tokens enforce fail
    spent start_run refusal_frame refusal_run over_calls check_calls ◌+ℤ◌ ◌-ℤ◌ update reserve
    reserve_frame
counted-limited = omega arith

Reach-calls_within_example : (counted.budgets 0).calls ≤ℤ (counted.budgets 0).limits.max_model_calls
Reach-calls_within_example =
    Reach-calls_within empty_store counted 0 refl counted-Reach counted-live counted-limited

failed-live : 0 < failed.next_budget
unfolding start_run enter_step
failed-live = omega arith

Reach-stopped_example : (admit at_ten draft_frame failed).0 ≢ none
Reach-stopped_example =
    Reach-stopped failed failed 0 (tokens_exceeded (pos 1000) (pos 1200)) at_ten draft_frame
      failed-live refl here refl

failed-refused : (admit at_ten draft_frame failed).0 ≢ none
failed-refused h =
    Reach-stopped failed failed 0 (tokens_exceeded (pos 1000) (pos 1200)) at_ten draft_frame
      failed-live refl here refl h

admit_refused-Stays_example : Stays failed (admit at_ten draft_frame failed).1
admit_refused-Stays_example = admit_refused-Stays at_ten draft_frame failed failed-refused

budget_remaining-SomeLeft_example :
    SomeLeft (budget_remaining at_ten draft_frame drafting)
    ↔ All (LimitsLeft at_ten drafting) draft_frame
budget_remaining-SomeLeft_example = budget_remaining-SomeLeft at_ten draft_frame drafting
