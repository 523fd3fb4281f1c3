-- ===== src/Floats.antt =====
-- Go's float64, a parameter of the code that computes with scores.
use gepago.Base.{ℕ, ◌≡◌, ◌↔◌, Bool, true, false}

-- The operations that the code uses; `over a n` is `a / float64(n)`.
pub record Floats : Type 1 where
  pub Num : Type 0
  pub nought : Num
  pub plus : Num → Num → Num
  pub over : Num → ℕ → Num
  pub lt : Num → Num → Bool
  pub eq : Num → Num → Bool

-- What IEEE 754 says of `<` and `==` on numbers that are no NaN, the two zeros being one number.
pub record IsOrdered (F : Floats) : Type 0 where
  pub lt_irrefl : (a : F.Num) → F.lt a a ≡ false
  pub lt_trans : (a b c : F.Num) → F.lt a b ≡ true → F.lt b c ≡ true → F.lt a c ≡ true
  pub lt_connex : (a b : F.Num) → F.lt a b ≡ false → F.lt b a ≡ false → a ≡ b
  pub eq_iff : (a b : F.Num) → (F.eq a b ≡ true) ↔ (a ≡ b)
