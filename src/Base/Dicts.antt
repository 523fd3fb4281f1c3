-- ===== src/Base/Dicts.antt =====
-- Maps that are only read and written by key: a function with a default for a missing key.
use Prim.Native.Nat.{ℕ}
use Prim.Native.String.{String}
use mathlib.Core.Path.{◌≡◌, refl}
use mathlib.Core.Logic.{◌≢◌}
use native.Mathlib.Omega.{arith}
use gepago.Base.Tests.{◌==◌, str_eq, if◌then◌else◌}

module _ {ℓ} {V : Type ℓ} where
  -- `m[k] = v` on a map by texts.
  unfoldable pub put : (String → V) → String → V → String → V
  put m k v j = if str_eq j k then v else m j

  -- A write to the cell at an address.
  unfoldable pub update : (ℕ → V) → ℕ → V → ℕ → V
  update m k v j = if j == k then v else m j

module _ {ℓ} {V : Type ℓ} where
  pub put_lem :
      (m : String → V) (k j : String) (v : V) → put m k v j ≡ (if str_eq j k then v else m j)
  unfolding put
  put_lem m k j v = refl

  pub update_lem : (m : ℕ → V) (k j : ℕ) (v : V) → update m k v j ≡ (if j == k then v else m j)
  unfolding update
  update_lem m k j v = refl

  pub update_self : (m : ℕ → V) (k : ℕ) (v : V) → update m k v k ≡ v
  unfolding update
  update_self m k v = ground arith

  pub update_ne : (m : ℕ → V) (k j : ℕ) (v : V) → j ≢ k → update m k v j ≡ m j
  unfolding update
  update_ne m k j v h = ground arith
