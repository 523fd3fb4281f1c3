-- ===== src/Optimizer/Monad.antt =====
-- A method of the optimiser: it changes the run's state and the world outside, and what it has
-- changed stays changed when it fails.
use gepago.Base.{Option, none, some}
use gepago.Floats.{Floats}
use gepago.Optimizer.Data.{Types, OptimizationState}

pub data Out (X A : Type 0) : Type 0 where
  ok : A → Out X A
  err : X → Out X A

module _ (F : Floats) (T : Types) where
  pub record St : Type 0 where
    pub state : OptimizationState F T
    pub world : T.World

  abbrev pub Action : Type 0 → Type 0
  Action A = St → Out T.Error A × St

module _ {F : Floats} {T : Types} where
  unfoldable pub pure : {A : Type 0} → A → Action F T A
  pure a st = (ok a, st)

  infixl 5 ◌>>=◌ ◌>>◌
  unfoldable pub ◌>>=◌ : {A B : Type 0} → Action F T A → (A → Action F T B) → Action F T B
  ◌>>=◌ m f st = let (r, st') = m st in elim r [ ok a ↦ f a st' | err e ↦ (err e, st') ]

  unfoldable pub ◌>>◌ : {A B : Type 0} → Action F T A → Action F T B → Action F T B
  m >> k = m >>= λ _. k

  unfoldable pub get : Action F T (OptimizationState F T)
  get st = (ok st.state, st)

  unfoldable pub modify : (OptimizationState F T → OptimizationState F T) → Action F T (Unit {0})
  modify f st = (ok tt, record st { state = f st.state })

  -- What changes the world alone.
  unfoldable pub outside : {A : Type 0} → (T.World → A × T.World) → Action F T A
  outside f st = let (a, w) = f st.world in (ok a, record st { world = w })

  -- `if err != nil { return err }`
  unfoldable pub check : Option T.Error → Action F T (Unit {0})
  check none st = (ok tt, st)
  check (some e) st = (err e, st)
