-- ===== src/Retry/Attempts.antt =====
-- retry_lm.go: the attempts of a retried call.
use gepago.Base.{
  ℕ, suc, ◌≤◌, ◌<◌, ◌≡◌, refl, ap, sym, ◌∙◌, subst, Bool, true, false, Option, none, some, List, [],
  ◌∷◌, ◌++◌, All, All-append, length, length-append, arith, if-rel, leb, not, ◌||◌,
}
use gepago.Usage.{Usage, no_usage, add_usage}
use gepago.Budget.Limits.{BudgetFailure}
use gepago.Budget.Retry.{RetryCall, report}
use gepago.Retry.Errors.{ErrorChain, is_transient}
use gepago.Retry.Backoff.{RetrySettings, backoff}
use gepago.Retry.Call.{
  CallTypes, CallEnv, AttemptMade, RetryState, attempts_of, unless_refused, sleep_context,
  make_attempt, is_last, reserve_next, wait_next, prepare_next,
}

module _ (C : ErrorChain) (K : CallTypes) (E : CallEnv C K) (m : RetrySettings) where
  -- The sum of the usages of the attempts.
  abbrev pub sum_usage : Usage → List (AttemptMade C K) → Usage
  sum_usage u [] = u
  sum_usage u (a ∷ xs) = sum_usage (add_usage u (E.usage_of a.0)) xs

  -- Every attempt but the last failed with a transient error.
  abbrev pub Transient : AttemptMade C K → Type 0
  Transient a = is_transient C a.1 ≡ true

  abbrev pub Retried : List (AttemptMade C K) → Type 0
  Retried [] = Unit
  Retried (a ∷ []) = Unit
  Retried (a ∷ b ∷ xs) = Transient a × Retried (b ∷ xs)

  sum_usage-append :
      (u : Usage) (xs : List (AttemptMade C K)) (a : AttemptMade C K)
      → sum_usage u (xs ++ a ∷ []) ≡ add_usage (sum_usage u xs) (E.usage_of a.0)
  sum_usage-append u [] a = refl
  sum_usage-append u (b ∷ xs) a = sum_usage-append (add_usage u (E.usage_of b.0)) xs a

  Retried-append :
      (xs : List (AttemptMade C K)) (a : AttemptMade C K)
      → All Transient xs
      → Retried (xs ++ a ∷ [])
  Retried-append [] a h = tt
  Retried-append (b ∷ []) a (h, _) = (h, tt)
  Retried-append (b ∷ c ∷ xs) a (h, hs) = (h, Retried-append (c ∷ xs) a hs)

  -- All attempts that have been made failed with a transient error, and their usage is summed.
  pub record Going (n : ℕ) (s : RetryState C K) : Type 0 where
    pub count : length s.made ≡ n
    pub failed : All Transient s.made
    pub summed : sum_usage no_usage s.made ≡ s.usage

  -- How a call may end.
  pub record EndsRight (s : RetryState C K) : Type 0 where
    pub few : length s.made ≤ attempts_of C K E m m.max_attempts
    pub retried : Retried s.made
    pub summed : E.usage_of s.result ≡ sum_usage no_usage s.made

  -- The call has ended, as it may end.
  abbrev pub RightEnd : Option (Option C.Error × RetryState C K) → Type 0
  RightEnd r = (e : Option C.Error × RetryState C K) × (r ≡ some e) × EndsRight e.1

  module _ (sets : (r : K.Result) (u : Usage) → E.usage_of (E.set_usage r u) ≡ u) where
    -- After an attempt, whether it is the last or not.
    pub record Made (n : ℕ) (e : Option C.Error) (s : RetryState C K) : Type 0 where
      pub count : length s.made ≡ suc n
      pub failed : is_transient C e ≡ true → All Transient s.made
      pub summed : sum_usage no_usage s.made ≡ s.usage
      pub carried : E.usage_of s.result ≡ s.usage
      pub retried : Retried s.made

    pub make_attempt-Made :
        (n : ℕ) (carried : Option RetryCall) (s : RetryState C K)
        → Going n s
        → (let (e, t) = make_attempt C K E m carried s in Made n e t)
    unfolding make_attempt
    make_attempt-Made n carried s g =
        let ((r, e), store, w) = E.call carried s.store s.world in
        record {
          count = omega (arith, length-append s.made ((r, e) ∷ []), g.count);
          failed = λ h. All-append Transient s.made ((r, e) ∷ []) g.failed (h, tt);
          summed =
              sum_usage-append no_usage s.made (r, e)
              ∙ ap (λ u. add_usage u (E.usage_of r)) g.summed;
          carried = sets r (add_usage s.usage (E.usage_of r));
          retried = Retried-append s.made (r, e) g.failed;
        }

    -- The preparation of the next attempt makes none.
    abbrev pub SameCall : RetryState C K → RetryState C K → Type 0
    SameCall s t = (t.result ≡ s.result) × (t.usage ≡ s.usage) × (t.made ≡ s.made)

    reserve_next-SameCall :
        (admission : RetryCall) (s : RetryState C K)
        → SameCall s (reserve_next C K E m admission s).1
    unfolding reserve_next
    reserve_next-SameCall admission s = (refl, refl, refl)

    wait_next-SameCall :
        (attempt : ℕ) (admission : RetryCall) (s : RetryState C K)
        → SameCall s (wait_next C K E m attempt admission s).1
    unfolding wait_next
    wait_next-SameCall attempt admission s =
        let (delay, w) = backoff K.shares K.World E.jitter m attempt s.world in
        let (slept, w') = sleep_context C K E m delay w in
        if-rel (λ (r : Option (Option C.Error) × RetryState C K). SameCall s r.1) slept _ _
          (λ _. reserve_next-SameCall admission (record s { world = w' })) (λ _. (refl, refl, refl))

    pub prepare_next-SameCall :
        (attempt : ℕ) (admission : RetryCall) (s : RetryState C K)
        → SameCall s (prepare_next C K E m attempt admission s).1
    unfolding prepare_next
    prepare_next-SameCall attempt admission s =
        let (refusal, store) = report (E.clock s.world) admission s.usage s.store in
        let t : RetryState C K = record s { store = store } in
        either refusal t (wait_next C K E m attempt admission t) (refl, refl, refl)
          (wait_next-SameCall attempt admission t)
      where
        either :
            (o : Option BudgetFailure) (t : RetryState C K)
            (u : Option (Option C.Error) × RetryState C K)
            → SameCall s t
            → SameCall s u.1
            → SameCall s (unless_refused C K E m o t u).1
        either none t u ht hu = hu
        either (some b) t u ht hu = ht

    -- Another attempt follows only a transient failure that is not of the last attempt.
    pub is_last-false :
        (attempt : ℕ) (e : Option C.Error)
        → is_last C K E m attempt e ≡ false
        → (attempt < attempts_of C K E m m.max_attempts) × (is_transient C e ≡ true)
    unfolding is_last
    is_last-false attempt none h = absurd (cc)
    is_last-false attempt (some e) h =
        (apart (attempts_of C K E m m.max_attempts) _ h, goes_on _ (is_transient C (some e)) h)
      where
        apart : (n : ℕ) (b : Bool) → (leb n attempt || b) ≡ false → attempt < n
        apart n b h = ground (arith, h)

        goes_on : (b t : Bool) → (b || not t) ≡ false → t ≡ true
        goes_on b t h = ground (arith, h)

    pub Made-EndsRight :
        (n : ℕ) (e : Option C.Error) (s t : RetryState C K)
        → suc n ≤ attempts_of C K E m m.max_attempts
        → Made n e s
        → SameCall s t
        → EndsRight t
    Made-EndsRight n e s t le h (result, usage, made) = record {
      few =
          subst (λ xs. length xs ≤ attempts_of C K E m m.max_attempts) (sym made)
            (omega (arith, h.count, le));
      retried = subst Retried (sym made) h.retried;
      summed = ap E.usage_of result ∙ h.carried ∙ sym h.summed ∙ ap (sum_usage no_usage) (sym made);
    }

    pub Made-Going :
        (n : ℕ) (e : Option C.Error) (s t : RetryState C K)
        → Made n e s
        → SameCall s t
        → is_transient C e ≡ true
        → Going (suc n) t
    Made-Going n e s t h (result, usage, made) transient = record {
      count = ap length made ∙ h.count;
      failed = subst (All Transient) (sym made) (h.failed transient);
      summed = ap (sum_usage no_usage) made ∙ h.summed ∙ sym usage;
    }
