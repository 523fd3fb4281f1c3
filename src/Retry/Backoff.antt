-- ===== src/Retry/Backoff.antt =====
-- retry_lm.go: the wait before an attempt. A `time.Duration` that is not negative is its 63 bits; the
-- floats of its random share are Go's own.
use gepago.Base.{ℕ, zero, suc, ◌-◌, ◌*◌, ◌/◌, ◌%◌, ◌^◌, Option, none, some, ltb, leb, if◌then◌else◌}
use gepago.Base.Int.{ℤ, pos, negsuc, sub_ℕ, ◌+ℤ◌}
use gepago.Floats.{Floats}

-- The fields of `RetryingLanguageModel` that are not the model.
pub record RetrySettings : Type 0 where
  pub max_attempts : ℤ
  pub delay : ℤ
  pub max_delay : ℤ

-- `defaultRetryMaxDelay`, in nanoseconds.
abbrev pub default_retry_max_delay : ℕ
default_retry_max_delay = 30 * 1000000000

-- The cap of each wait.
unfoldable pub cap_of : ℤ → ℕ
cap_of (pos zero) = default_retry_max_delay
cap_of (pos (suc n)) = suc n
cap_of (negsuc n) = default_retry_max_delay

-- The loop of `backoff`, with this many doublings left; a product wraps at 64 bits.
unfoldable pub doubled : ℕ → ℕ → ℕ → ℕ
doubled most zero delay = delay
doubled most (suc n) delay =
    if ltb (most / 2) delay then most else doubled most n (delay * 2 % 2 ^ 64)

-- The wait after this failed attempt without its random share, of a delay that is positive.
unfoldable pub base_wait : ℕ → ℕ → ℕ → ℕ
unfolding doubled
base_wait most delay attempt = doubled most (attempt - 1) (if leb delay most then delay else most)

-- Go's float64 for the random share of a wait: `scale v n` is `time.Duration(v * float64(n))`.
pub record Shares : Type 1 where
  pub floats : Floats
  pub one : floats.Num
  pub scale : floats.Num → ℕ → ℤ

-- These bits as an int64.
abbrev pub signed : ℕ → ℤ
signed r = if ltb r (2 ^ 63) then pos r else sub_ℕ r (2 ^ 64)

-- A sum of durations wraps at 64 bits.
unfoldable pub wrap_64 : ℤ → ℤ
wrap_64 (pos n) = signed (n % 2 ^ 64)
wrap_64 (negsuc n) = signed (2 ^ 64 - 1 - n % 2 ^ 64)

module _ (S : Shares) where
  -- `min(max(value, 0), 1)`
  unfoldable pub clamp : S.floats.Num → S.floats.Num
  clamp v =
      let low = if S.floats.lt v S.floats.nought then S.floats.nought else v in
      if S.floats.lt S.one low then S.one else low

  -- A wait with its random share.
  unfoldable pub with_share : S.floats.Num → ℕ → ℤ
  unfolding wrap_64
  with_share v wait = wrap_64 (pos (wait / 2) +ℤ S.scale v (wait - wait / 2))

  -- The field `Jitter`, where it is set, and `rand.Float64`, over a state of the world.
  pub record JitterSource (W : Type 0) : Type 0 where
    pub set : Option (W → S.floats.Num × W)
    pub random : W → S.floats.Num × W

  module _ (W : Type 0) (J : JitterSource W) where
    -- `jitter`
    unfoldable pub jitter : W → S.floats.Num × W
    unfolding clamp
    jitter w = elim J.set [
      | none ↦ J.random w
      | some draw ↦ let (value, w') = draw w in (clamp value, w')
    ]

    -- `backoff` of a `Delay`
    unfoldable pub wait_from : ℕ → ℕ → ℤ → W → ℤ × W
    unfolding base_wait jitter with_share
    wait_from most attempt (negsuc n) w = (pos 0, w)
    wait_from most attempt (pos zero) w = (pos 0, w)
    wait_from most attempt (pos (suc n)) w =
        let (v, w') = jitter w in (with_share v (base_wait most (suc n) attempt), w')

    -- `backoff`
    unfoldable pub backoff : RetrySettings → ℕ → W → ℤ × W
    unfolding wait_from cap_of
    backoff m attempt w = wait_from (cap_of m.max_delay) attempt m.delay w
