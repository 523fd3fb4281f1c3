-- ===== src/Retry/Tests.antt =====
-- retry_lm.go: a model that answers at its third attempt, in a run with a budget.
use gepago.Base.{
  ℕ, zero, suc, ◌*◌, ltb, false, ◌+◌, ◌/◌, ◌^◌, ◌≤◌, ◌≡◌, refl, String, true, none, some, List, [],
  ◌∷◌, leb, if◌then◌else◌, arith,
}
use gepago.Base.Int.{pos, ◌≤ℤ◌}
use gepago.Frontier.Tests.{whole, whole-IsOrdered}
use gepago.Usage.{Usage, no_usage}
use gepago.Budget.Tests.{at_ten, run_frame, started}
use gepago.Retry.Errors.{ErrorChain}
use gepago.Retry.Backoff.{RetrySettings, Shares, JitterSource, cap_of, backoff}
use gepago.Retry.Waits.{ScalesShares, RandomShare, backoff-full_wait}
use gepago.Retry.Call.{CallTypes, CallEnv, attempts_of, retry_call}
use gepago.Retry.Attempts.{RightEnd}
use gepago.Retry.Ends.{retry_call-RightEnd}

-- An error is the kinds that it is wrapped with, outermost first.
abbrev kinds : ErrorChain
kinds = record {
  Error = List String;
  kind_error = λ k e. k ∷ e;
  as_kind_error = λ e. elim e [ [] ↦ none | k ∷ ks ↦ some k ];
}

abbrev thrice : RetrySettings
thrice = record { max_attempts = pos 3; delay = pos 100; max_delay = pos 250 }

cap-small : cap_of thrice.max_delay ≤ 2 ^ 53
unfolding cap_of
cap-small = omega arith

-- Numbers that count halves, so that 2 is one.
abbrev halves : Shares
halves = record { floats = whole; one = 2; scale = λ v n. pos (v * n / 2) }

part-halves : (v n : ℕ) → ltb 2 v ≡ false → v * n / 2 ≤ n
part-halves zero n h = omega arith
part-halves (suc zero) n h = omega arith
part-halves (suc (suc zero)) n h = omega arith
part-halves (suc (suc (suc v))) n h = ground (arith, h)

halves-ScalesShares : ScalesShares halves
halves-ScalesShares = record {
  ordered = whole-IsOrdered;
  positive = refl;
  part = λ v n low high le. (omega arith, omega (arith, part-halves v n high));
}

-- A `Jitter` that is clamped, as it returns more than one.
abbrev doubles : JitterSource halves ℕ
doubles = record { set = some (λ w. (4, w)); random = λ w. (1, w) }

doubles-RandomShare : RandomShare halves halves-ScalesShares ℕ doubles
doubles-RandomShare w = (refl, refl)

backoff-full_wait_example :
    (pos 125 ≤ℤ (backoff halves ℕ doubles thrice 3 0).0)
    × ((backoff halves ℕ doubles thrice 3 0).0 ≤ℤ pos 250)
unfolding cap_of
backoff-full_wait_example =
    backoff-full_wait halves halves-ScalesShares ℕ doubles thrice 3 0 doubles-RandomShare cap-small

abbrev one_token : Usage
one_token = record no_usage { prompt_tokens = pos 1 }

abbrev calls : CallTypes
calls = record { Result = Usage; World = ℕ; shares = halves }

-- The world counts the attempts: the first two fail.
abbrev third_answers : CallEnv kinds calls
third_answers = record {
  call = λ carried s w. ((one_token, if leb 2 w then none else some ("transient" ∷ [])), s, w + 1);
  nothing = no_usage;
  usage_of = λ r. r;
  set_usage = λ r u. u;
  context_error = λ w. none;
  clock = λ w. at_ten;
  jitter = doubles;
  timer = λ delay w. (true, w);
  refused = λ b. "budget" ∷ [];
}

enough : attempts_of kinds calls third_answers thrice thrice.max_attempts ≤ 3
unfolding attempts_of
enough = omega arith

retry_call-RightEnd_example :
    RightEnd kinds calls third_answers thrice
      (retry_call kinds calls third_answers thrice 3 run_frame none started 0)
retry_call-RightEnd_example =
    retry_call-RightEnd kinds calls third_answers thrice (λ r u. refl) 3 run_frame none started 0
      enough
