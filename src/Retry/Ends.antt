-- ===== src/Retry/Ends.antt =====
-- retry_lm.go: how a retried call ends.
use gepago.Base.{
  ℕ, zero, suc, ◌+◌, ◌≤◌, ◌<◌, ◌≡◌, refl, ap, sym, ◌∙◌, Option, some, List, [], ◌∷◌, All, arith,
  if-rel, option-rel,
}
use gepago.Base.Int.{ℤ, pos, negsuc}
use gepago.Usage.{Usage}
use gepago.Budget.Store.{Frame, Store}
use gepago.Budget.Retry.{RetryCall, begin_retry, finish}
use gepago.Retry.Errors.{ErrorChain}
use gepago.Retry.Backoff.{RetrySettings}
use gepago.Retry.Call.{
  CallTypes, CallEnv, AttemptMade, RetryState, attempts_of, make_attempt, is_last, prepare_next,
  retry_from, begun, finished, retry_call,
}
use gepago.Retry.Attempts.{
  Transient, Retried, Going, EndsRight, RightEnd, Made, make_attempt-Made, SameCall,
  prepare_next-SameCall, is_last-false, Made-EndsRight, Made-Going,
}

module _ (C : ErrorChain) (K : CallTypes) (E : CallEnv C K) (m : RetrySettings)
    (sets : (r : K.Result) (u : Usage) → E.usage_of (E.set_usage r u) ≡ u) where
  abbrev most : ℕ
  most = attempts_of C K E m m.max_attempts

  abbrev Right : Option (Option C.Error × RetryState C K) → Type 0
  Right = RightEnd C K E m

  Transient-Retried :
      (xs : List (AttemptMade C K)) → All (Transient C K E m) xs → Retried C K E m xs
  Transient-Retried [] h = tt
  Transient-Retried (a ∷ []) h = tt
  Transient-Retried (a ∷ b ∷ xs) (h, hs) = (h, Transient-Retried (b ∷ xs) hs)

  attempts_of-pos : (n : ℤ) → 0 < attempts_of C K E m n
  unfolding attempts_of
  attempts_of-pos (pos zero) = omega arith
  attempts_of-pos (pos (suc n)) = omega arith
  attempts_of-pos (negsuc n) = omega arith

  -- A call whose context has ended ends with what it has.
  Going-EndsRight :
      (n : ℕ) (s : RetryState C K)
      → n ≤ most
      → Going C K E m n s
      → EndsRight C K E m (record s { result = E.set_usage s.result s.usage })
  Going-EndsRight n s le g = record {
    few = omega (arith, g.count, le);
    retried = Transient-Retried s.made g.failed;
    summed = sets s.result s.usage ∙ sym g.summed;
  }

  retry_from-RightEnd :
      (fuel n : ℕ) (carried : Option RetryCall) (admission : RetryCall) (s : RetryState C K)
      → n < most
      → most ≤ fuel + n
      → Going C K E m n s
      → Right (retry_from C K E m fuel (suc n) carried admission s)
  unfolding retry_from
  retry_from-RightEnd zero n carried admission s lt enough g = absurd (omega (arith, lt, enough))
  retry_from-RightEnd (suc fuel) n carried admission s lt enough g =
      option-rel Right (E.context_error s.world)
        (λ _.
          let (e, t) = make_attempt C K E m carried s in
          let made : Made C K E m sets n e t = make_attempt-Made C K E m sets n carried s g in
          if-rel Right (is_last C K E m (suc n) e) _ _
            (λ _. ((e, t), refl, Made-EndsRight C K E m sets n e t t lt made (refl, refl, refl)))
            (λ goes_on.
              let r = prepare_next C K E m (suc n) admission t in
              let same : SameCall C K E m sets t r.1 =
                prepare_next-SameCall C K E m sets (suc n) admission t in
              let (more, transient) = is_last-false C K E m sets (suc n) e goes_on in
              option-rel Right r.0
                (λ _.
                  retry_from-RightEnd fuel (suc n) carried admission r.1 more
                    (omega (arith, enough)) (Made-Going C K E m sets n e t r.1 made same transient))
                (λ err _. ((err, r.1), refl, Made-EndsRight C K E m sets n e t r.1 lt made same))))
        (λ e _. (
          (some e, record s { result = E.set_usage s.result s.usage }),
          refl,
          Going-EndsRight n s (omega (arith, lt)) g,
        ))

  -- A retried call ends, on as much fuel as it may make attempts. It has made at most `MaxAttempts` of
  -- them, at least one being allowed; every attempt but the last failed with a transient error; and the
  -- result carries the summed usage of all attempts, failed ones included.
  pub retry_call-RightEnd :
      (fuel : ℕ) (frame : Frame) (around : Option RetryCall) (store : Store) (w : K.World)
      → attempts_of C K E m m.max_attempts ≤ fuel
      → RightEnd C K E m (retry_call C K E m fuel frame around store w)
  unfolding retry_call
  retry_call-RightEnd fuel frame around store w enough =
      let (carried, admission, store') = begin_retry frame around store in
      let start : Going C K E m 0 (begun C K E m store' w) = record {
        count = refl;
        failed = tt;
        summed = refl;
      } in
      let ((e, t), ended, right) =
        retry_from-RightEnd fuel 0 carried admission (begun C K E m store' w)
          (attempts_of-pos m.max_attempts) (omega (arith, enough)) start in
      (
        (e, record t { store = finish admission t.usage t.store }),
        ap (finished C K E m admission) ended,
        record { few = right.few; retried = right.retried; summed = right.summed },
      )
