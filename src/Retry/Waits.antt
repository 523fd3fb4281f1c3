-- ===== src/Retry/Waits.antt =====
-- retry_lm.go: how long `backoff` waits.
use native.Mathlib.Nat.{pow-succ', mul_assoc, mul-le-mul_left, one-le-pow}
use gepago.Base.{
  ap, sym, ◌∙◌, if-rel, ltb→lt, leb→le, subst, ℕ, zero, suc, ◌+◌, ◌-◌, ◌*◌, ◌/◌, ◌%◌, ◌^◌, ◌≤◌, ◌<◌,
  ◌≡◌, Bool, true, false, Option, none, some, ltb, leb, if◌then◌else◌, arith, Bool-cases, inl, inr,
}
use gepago.Base.Int.{ℤ, pos, negsuc, ◌+ℤ◌, ◌≤ℤ◌, eq_of_parts, int_laws}
use gepago.Floats.{IsOrdered}
use gepago.Retry.Backoff.{
  RetrySettings, Shares, JitterSource, cap_of, doubled, base_wait, wrap_64, clamp, with_share,
  jitter, wait_from, backoff,
}

-- The least of a delay doubled so often and a cap, with no bits lost.
abbrev pub capped : ℕ → ℕ → ℕ → ℕ
capped most delay n = if leb (delay * 2 ^ n) most then delay * 2 ^ n else most

pow_shift : (delay n : ℕ) → delay * 2 ^ suc n ≡ delay * 2 * 2 ^ n
pow_shift delay n = ap (λ q. delay * q) (pow-succ' 2 n) ∙ sym (mul_assoc delay 2 (2 ^ n))

-- The loop of `backoff` loses no bits: the delay is at most half the cap when it doubles.
doubled-capped :
    (most n delay : ℕ) → most < 2 ^ 63 → delay ≤ most → doubled most n delay ≡ capped most delay n
unfolding doubled
doubled-capped most zero delay small le = ground (arith, le)
doubled-capped most (suc n) delay small le =
    if-rel (λ d. d ≡ capped most delay (suc n)) (ltb (most / 2) delay) _ _
      (λ over. past (ltb→lt (most / 2) delay over))
      (λ fits.
        let half : delay * 2 ≤ most = ground (arith, fits) in
        let kept : delay * 2 % 2 ^ 64 ≡ delay * 2 = omega (arith, half, small) in
        ap (doubled most n) kept
        ∙ doubled-capped most n (delay * 2) small half
        ∙ ap (λ d. if leb d most then d else most) (sym (pow_shift delay n)))
  where
    past : most / 2 < delay → most ≡ capped most delay (suc n)
    past lt =
        let more : most < delay * 2 = omega (arith, lt) in
        let grown : delay * 2 * 1 ≤ delay * 2 * 2 ^ n =
          mul-le-mul_left (delay * 2) (one-le-pow n 2 (omega arith)) in
        let far : most < delay * 2 ^ suc n = omega (arith, pow_shift delay n, grown, more) in
        ground (arith, far)

-- What the documentation calls the delay before a wait's random share: `Delay` doubled once for each
-- failed attempt after the first, at most `MaxDelay`.
abbrev pub full_from : ℕ → ℕ → ℤ → ℕ
full_from most attempt (negsuc n) = 0
full_from most attempt (pos zero) = 0
full_from most attempt (pos (suc n)) = capped most (suc n) (attempt - 1)

abbrev pub full_wait : RetrySettings → ℕ → ℕ
full_wait m attempt = full_from (cap_of m.max_delay) attempt m.delay

base_wait-capped :
    (most delay attempt : ℕ)
    → most < 2 ^ 63
    → base_wait most delay attempt ≡ capped most delay (attempt - 1)
unfolding base_wait
base_wait-capped most delay attempt small = elim (Bool-cases (leb delay most)) [
  | inl le ↦
      ap (λ (b : Bool). doubled most (attempt - 1) (if b then delay else most)) le
      ∙ doubled-capped most (attempt - 1) delay small (leb→le delay most le)
  | inr gt ↦
      ap (λ (b : Bool). doubled most (attempt - 1) (if b then delay else most)) gt
      ∙ doubled-capped most (attempt - 1) most small (omega arith)
      ∙ all most (omega arith)
      ∙ sym (all delay (ground (arith, gt)))
]
  where
    all : (d : ℕ) → most ≤ d → capped most d (attempt - 1) ≡ most
    all d le =
        let grown : d * 1 ≤ d * 2 ^ (attempt - 1) =
          mul-le-mul_left d (one-le-pow (attempt - 1) 2 (omega arith)) in
        ground (arith, grown, le)

-- What IEEE 754 says of the product of a float from 0 to 1 and a whole number up to 2^53, made an
-- integer; the numbers are no NaN.
pub record ScalesShares (S : Shares) : Type 0 where
  pub ordered : IsOrdered S.floats
  pub positive : S.floats.lt S.floats.nought S.one ≡ true
  pub part :
      (v : S.floats.Num) (n : ℕ)
      → S.floats.lt v S.floats.nought ≡ false
      → S.floats.lt S.one v ≡ false
      → n ≤ 2 ^ 53
      → (pos 0 ≤ℤ S.scale v n) × (S.scale v n ≤ℤ pos n)

wrap_64-small : (n : ℕ) → n < 2 ^ 63 → wrap_64 (pos n) ≡ pos n
unfolding wrap_64
wrap_64-small n le = ground (arith, le)

module _ (S : Shares) (law : ScalesShares S) where
  -- The number is from 0 to 1.
  abbrev pub IsShare : S.floats.Num → Type 0
  IsShare v = (S.floats.lt v S.floats.nought ≡ false) × (S.floats.lt S.one v ≡ false)

  below : S.floats.lt S.one S.floats.nought ≡ false
  below = elim (Bool-cases (S.floats.lt S.one S.floats.nought)) [
    | inl lt ↦ cc (
      law.ordered.lt_trans S.floats.nought S.one S.floats.nought law.positive lt,
      law.ordered.lt_irrefl S.floats.nought,
    )
    | inr ge ↦ ge
  ]

  clamp-IsShare : (v : S.floats.Num) → IsShare (clamp S v)
  unfolding clamp
  clamp-IsShare v =
      if-rel (λ low. IsShare (if S.floats.lt S.one low then S.one else low))
        (S.floats.lt v S.floats.nought) S.floats.nought v
        (λ _. capped_at S.floats.nought (law.ordered.lt_irrefl S.floats.nought))
        (λ h. capped_at v h)
    where
      capped_at :
          (low : S.floats.Num)
          → S.floats.lt low S.floats.nought ≡ false
          → IsShare (if S.floats.lt S.one low then S.one else low)
      capped_at low h =
          if-rel IsShare (S.floats.lt S.one low) S.one low
            (λ _. (below, law.ordered.lt_irrefl S.one)) (λ k. (h, k))

  with_share-halves :
      (v : S.floats.Num) (w : ℕ)
      → IsShare v
      → w ≤ 2 ^ 53
      → (pos (w / 2) ≤ℤ with_share S v w) × (with_share S v w ≤ℤ pos w)
  unfolding with_share
  with_share-halves v w (low, high) le =
      go (S.scale v (w - w / 2)) (law.part v (w - w / 2) low high (omega (arith, le)))
    where
      go :
          (z : ℤ)
          → (pos 0 ≤ℤ z) × (z ≤ℤ pos (w - w / 2))
          → (pos (w / 2) ≤ℤ wrap_64 (pos (w / 2) +ℤ z)) × (wrap_64 (pos (w / 2) +ℤ z) ≤ℤ pos w)
      go (negsuc n) (h, k) = absurd (omega (arith, h))
      go (pos n) (h, k) =
          let sum : pos (w / 2) +ℤ pos n ≡ pos (w / 2 + n) = eq_of_parts _ _ (omega int_laws) in
          let whole : wrap_64 (pos (w / 2) +ℤ pos n) ≡ pos (w / 2 + n) =
            ap wrap_64 sum ∙ wrap_64-small (w / 2 + n) (omega (arith, k, le)) in
          subst (λ z. (pos (w / 2) ≤ℤ z) × (z ≤ℤ pos w)) (sym whole) (omega arith, omega (arith, k))

  module _ (W : Type 0) (J : JitterSource S W) where
    -- `rand.Float64` is from 0 to 1.
    abbrev pub RandomShare : Type 0
    RandomShare = (w : W) → IsShare (J.random w).0

    jitter-IsShare : RandomShare → (w : W) → IsShare (jitter S W J w).0
    unfolding jitter
    jitter-IsShare random w = go J.set
      where
        go :
            (o : Option (W → S.floats.Num × W))
            → IsShare
                (elim o as (λ _. S.floats.Num × W) [
                  | none ↦ J.random w
                  | some draw ↦ let (value, w') = draw w in (clamp S value, w')
                ]).0
        go none = random w
        go (some draw) = clamp-IsShare (draw w).0

    -- Where `MaxDelay` is at most 2^53 nanoseconds, `backoff` waits between half of the delay that it
    -- documents and all of it, whatever `Jitter` returns, of numbers that are no NaN; or whatever
    -- Go's random numbers from 0 to 1 are, where there is no `Jitter`.
    pub backoff-full_wait :
        (m : RetrySettings) (attempt : ℕ) (w : W)
        → RandomShare
        → cap_of m.max_delay ≤ 2 ^ 53
        → (pos (full_wait m attempt / 2) ≤ℤ (backoff S W J m attempt w).0)
          × ((backoff S W J m attempt w).0 ≤ℤ pos (full_wait m attempt))
    unfolding backoff wait_from
    backoff-full_wait m attempt w random small = go m.delay
      where
        go :
            (d : ℤ)
            → (pos (full_from (cap_of m.max_delay) attempt d / 2)
                ≤ℤ (wait_from S W J (cap_of m.max_delay) attempt d w).0)
              × ((wait_from S W J (cap_of m.max_delay) attempt d w).0
                  ≤ℤ pos (full_from (cap_of m.max_delay) attempt d))
        go (negsuc n) = (omega arith, omega arith)
        go (pos zero) = (omega arith, omega arith)
        go (pos (suc n)) =
            let most = cap_of m.max_delay in
            let same = base_wait-capped most (suc n) attempt (omega (arith, small)) in
            subst
              (λ b.
                (pos (capped most (suc n) (attempt - 1) / 2) ≤ℤ with_share S (jitter S W J w).0 b)
                × (with_share S (jitter S W J w).0 b ≤ℤ pos (capped most (suc n) (attempt - 1))))
              (sym same)
              (with_share-halves (jitter S W J w).0 (capped most (suc n) (attempt - 1))
                (jitter-IsShare random w) (ground (arith, small)))
