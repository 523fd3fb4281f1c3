-- ===== src/Optimizer/Keeps.antt =====
-- Rules for what holds where a method of the optimiser ends: after an error, and after a result.
use gepago.Base.{◌≡◌, refl, Bool, true, false, Option, none, some, if◌then◌else◌}
use gepago.Floats.{Floats}
use gepago.Optimizer.Data.{Types, OptimizationState}
use gepago.Optimizer.Monad.{
  Action, St, Out, ok, err, pure, ◌>>=◌, ◌>>◌, get, modify, outside, check,
}

module _ {F : Floats} {T : Types} where
  abbrev pub Ended :
      {A : Type 0}
      → (OptimizationState F T → Type 0)
      → (A → OptimizationState F T → Type 0)
      → Out T.Error A × St F T
      → Type 0
  Ended X Q (ok a, st) = Q a st.state
  Ended X Q (err e, st) = X st.state

  -- The method, started in the state, ends with `X` after an error and with `Q` after a result.
  pub record Ends {A : Type 0} (X : OptimizationState F T → Type 0)
      (Q : A → OptimizationState F T → Type 0) (m : Action F T A) (st : St F T) : Type 0 where
    pub ended : Ended X Q (m st)

  -- The method keeps a predicate, however it ends.
  abbrev pub Keeps : {A : Type 0} → (OptimizationState F T → Type 0) → Action F T A → Type 0
  Keeps I m = (st : St F T) → I st.state → Ends I (λ _. I) m st

module _ {F : Floats} {T : Types} {A B : Type 0} {X : OptimizationState F T → Type 0}
    {Q : B → OptimizationState F T → Type 0} where
  pub bind-Ends :
      {R : A → OptimizationState F T → Type 0} {m : Action F T A} {f : A → Action F T B}
      {st : St F T}
      → Ends X R m st
      → ((a : A) (st' : St F T) → R a st'.state → Ends X Q (f a) st')
      → Ends X Q (m >>= f) st
  unfolding ◌>>=◌
  bind-Ends {R} {m} {f} {st} h g = record { ended = go (m st) h.ended }
    where
      go :
          (r : Out T.Error A × St F T)
          → Ended X R r
          → Ended X Q (let (o, st') = r in elim o [ ok a ↦ f a st' | err e ↦ (err e, st') ])
      go (ok a, st') j = (g a st' j).ended
      go (err e, st') j = j

module _ {F : Floats} {T : Types} {A B : Type 0} {X : OptimizationState F T → Type 0}
    {Q : B → OptimizationState F T → Type 0} where
  pub then-Ends :
      {R : A → OptimizationState F T → Type 0} {m : Action F T A} {k : Action F T B} {st : St F T}
      → Ends X R m st
      → ((a : A) (st' : St F T) → R a st'.state → Ends X Q k st')
      → Ends X Q (m >> k) st
  unfolding ◌>>◌
  then-Ends h g = bind-Ends h g

module _ {F : Floats} {T : Types} {B : Type 0} {X : OptimizationState F T → Type 0}
    {Q : B → OptimizationState F T → Type 0} where
  -- After `get` the state is the one it returns.
  pub get-Ends :
      (f : OptimizationState F T → Action F T B) {st : St F T}
      → Ends X Q (f st.state) st
      → Ends X Q (get >>= f) st
  unfolding get ◌>>=◌
  get-Ends f h = record { ended = h.ended }

  -- A step outside keeps the state.
  pub outside-Ends :
      {A : Type 0} (g : T.World → A × T.World) (f : A → Action F T B) {st : St F T}
      → ((a : A) (w : T.World) → Ends X Q (f a) (record st { world = w }))
      → Ends X Q (outside g >>= f) st
  unfolding outside ◌>>=◌
  outside-Ends g f {st} h = record { ended = (h (g st.world).0 (g st.world).1).ended }

  -- A check keeps the state, and fails or goes on.
  pub check-Ends :
      (e : Option T.Error) (k : Action F T B) {st : St F T}
      → X st.state
      → Ends X Q k st
      → Ends X Q (check e >> k) st
  unfolding check ◌>>=◌ ◌>>◌
  check-Ends none k x h = record { ended = h.ended }
  check-Ends (some e) k x h = record { ended = x }

  -- After an assignment the state is the one it makes.
  pub modify-Ends :
      (g : OptimizationState F T → OptimizationState F T) (k : Action F T B) {st : St F T}
      → Ends X Q k (record st { state = g st.state })
      → Ends X Q (modify g >> k) st
  unfolding modify ◌>>=◌ ◌>>◌
  modify-Ends g k h = record { ended = h.ended }

module _ {F : Floats} {T : Types} {X : OptimizationState F T → Type 0} where
  pub check-Keeps : (e : Option T.Error) → Keeps X (check {F = F} {T = T} e)
  unfolding check
  check-Keeps none st i = record { ended = i }
  check-Keeps (some e) st i = record { ended = i }

  pub check_last-Ends :
      {Q : Unit {0} → OptimizationState F T → Type 0} (e : Option T.Error) {st : St F T}
      → X st.state
      → Q tt st.state
      → Ends X Q (check {F = F} {T = T} e) st
  unfolding check
  check_last-Ends none x q = record { ended = q }
  check_last-Ends (some e) x q = record { ended = x }

  pub assign-Ends :
      {Q : Unit {0} → OptimizationState F T → Type 0}
      (g : OptimizationState F T → OptimizationState F T) {st : St F T}
      → Q tt (g st.state)
      → Ends X Q (modify g) st
  unfolding modify
  assign-Ends g h = record { ended = h }

  pub pure-Ends :
      {A : Type 0} {Q : A → OptimizationState F T → Type 0} (a : A) {st : St F T}
      → Q a st.state
      → Ends X Q (pure a) st
  unfolding pure
  pure-Ends a h = record { ended = h }

  pub if-Ends :
      {A : Type 0} {Q : A → OptimizationState F T → Type 0} {st : St F T} (b : Bool)
      {m n : Action F T A}
      → (b ≡ true → Ends X Q m st)
      → (b ≡ false → Ends X Q n st)
      → Ends X Q (if b then m else n) st
  if-Ends true h g = h refl
  if-Ends false h g = g refl

  -- A stronger ending implies a weaker one.
  pub weaken-Ends :
      {A : Type 0} {Y : OptimizationState F T → Type 0} {R Q : A → OptimizationState F T → Type 0}
      {m : Action F T A} {st : St F T}
      → ((s : OptimizationState F T) → Y s → X s)
      → ((a : A) (s : OptimizationState F T) → R a s → Q a s)
      → Ends Y R m st
      → Ends X Q m st
  weaken-Ends {A} {Y} {R} {Q} {m} {st} f g h = record { ended = go (m st) h.ended }
    where
      go : (r : Out T.Error A × St F T) → Ended Y R r → Ended X Q r
      go (ok a, st') j = g a st'.state j
      go (err e, st') j = f st'.state j
