-- ===== src/Base/Action.antt =====
-- A method of an object: it changes a state, and what it has changed stays changed when it fails.
use mathlib.Core.Path.{◌≡◌, refl}
use mathlib.Core.Bool.{Bool, true, false}
use mathlib.Core.Option.{Option, none, some}
use gepago.Base.Tests.{if◌then◌else◌}

pub data Out (X A : Type 0) : Type 0 where
  ok : A → Out X A
  err : X → Out X A

abbrev pub Action : Type 0 → Type 0 → Type 0 → Type 0
Action S X A = S → Out X A × S

module _ {S X : Type 0} where
  unfoldable pub pure : {A : Type 0} → A → Action S X A
  pure a s = (ok a, s)

  unfoldable pub fail : {A : Type 0} → X → Action S X A
  fail e s = (err e, s)

  infixl 5 ◌>>=◌ ◌>>◌
  unfoldable pub ◌>>=◌ : {A B : Type 0} → Action S X A → (A → Action S X B) → Action S X B
  ◌>>=◌ m f s = let (r, s') = m s in elim r [ ok a ↦ f a s' | err e ↦ (err e, s') ]

  unfoldable pub ◌>>◌ : {A B : Type 0} → Action S X A → Action S X B → Action S X B
  m >> k = m >>= λ _. k

  unfoldable pub get : Action S X S
  get s = (ok s, s)

  unfoldable pub modify : (S → S) → Action S X (Unit {0})
  modify f s = (ok tt, f s)

  -- The outcome of a call as a value, so that the caller may go on after an error.
  unfoldable pub attempt : {A : Type 0} → Action S X A → Action S X (Out X A)
  attempt m s = let (r, s') = m s in (ok r, s')

  abbrev pub Ended : {A : Type 0} → (S → Type 0) → (A → S → Type 0) → Out X A × S → Type 0
  Ended P Q (ok a, s) = Q a s
  Ended P Q (err e, s) = P s

  -- The method, started in the state, ends with `P` after an error and with `Q` after a result.
  pub record Ends {A : Type 0} (P : S → Type 0) (Q : A → S → Type 0) (m : Action S X A) (s : S)
      : Type 0 where
    pub ended : Ended P Q (m s)

  abbrev pub Keeps : {A : Type 0} → (S → Type 0) → Action S X A → Type 0
  Keeps P m = (s : S) → P s → Ends P (λ _. P) m s

module _ {S X A B : Type 0} {P : S → Type 0} {Q : B → S → Type 0} where
  pub bind-Ends :
      {R : A → S → Type 0} {m : Action S X A} {f : A → Action S X B} {s : S}
      → Ends P R m s
      → ((a : A) (s' : S) → R a s' → Ends P Q (f a) s')
      → Ends P Q (m >>= f) s
  unfolding ◌>>=◌
  bind-Ends {R} {m} {f} {s} h g = record { ended = go (m s) h.ended }
    where
      go :
          (r : Out X A × S)
          → Ended P R r
          → Ended {X = X} P Q (let (o, s') = r in elim o [ ok a ↦ f a s' | err e ↦ (err e, s') ])
      go (ok a, s') j = (g a s' j).ended
      go (err e, s') j = j

module _ {S X A B : Type 0} {P : S → Type 0} {Q : B → S → Type 0} where
  pub then-Ends :
      {R : A → S → Type 0} {m : Action S X A} {k : Action S X B} {s : S}
      → Ends P R m s
      → ((a : A) (s' : S) → R a s' → Ends P Q k s')
      → Ends P Q (m >> k) s
  unfolding ◌>>◌
  then-Ends h g = bind-Ends h g

module _ {S X B : Type 0} {P : S → Type 0} {Q : B → S → Type 0} where
  -- After `get` the state is the one it returns.
  pub get-Ends : (f : S → Action S X B) {s : S} → Ends P Q (f s) s → Ends P Q (get >>= f) s
  unfolding get ◌>>=◌
  get-Ends f h = record { ended = h.ended }

  pub modify-Ends :
      (g : S → S) (k : Action S X B) {s : S} → Ends P Q k (g s) → Ends P Q (modify g >> k) s
  unfolding modify ◌>>=◌ ◌>>◌
  modify-Ends g k h = record { ended = h.ended }

  pub pure-Ends : (b : B) {s : S} → Q b s → Ends {X = X} P Q (pure b) s
  unfolding pure
  pure-Ends b h = record { ended = h }

  pub fail-Ends : (e : X) {s : S} → P s → Ends P Q (fail e) s
  unfolding fail
  fail-Ends e h = record { ended = h }

  pub if-Ends :
      {s : S} (b : Bool) {m n : Action S X B}
      → (b ≡ true → Ends P Q m s)
      → (b ≡ false → Ends P Q n s)
      → Ends P Q (if b then m else n) s
  if-Ends true h g = h refl
  if-Ends false h g = g refl

  pub option-Ends :
      {C : Type 0} {s : S} (o : Option C) {m : Action S X B} {n : C → Action S X B}
      → (o ≡ none → Ends P Q m s)
      → ((c : C) → o ≡ some c → Ends P Q (n c) s)
      → Ends P Q (elim o [ none ↦ m | some c ↦ n c ]) s
  option-Ends none h g = h refl
  option-Ends (some c) h g = g c refl

  pub out-Ends :
      {Y C : Type 0} {s : S} (o : Out Y C) {m : Y → Action S X B} {n : C → Action S X B}
      → ((y : Y) → o ≡ err y → Ends P Q (m y) s)
      → ((c : C) → o ≡ ok c → Ends P Q (n c) s)
      → Ends P Q (elim o [ err y ↦ m y | ok c ↦ n c ]) s
  out-Ends (ok c) h g = g c refl
  out-Ends (err y) h g = h y refl

  -- After `attempt` an error is a value.
  pub attempt-Ends :
      {A : Type 0} {R : A → S → Type 0} (m : Action S X A) (f : Out X A → Action S X B) {s : S}
      → Ends P R m s
      → ((e : X) (s' : S) → P s' → Ends P Q (f (err e)) s')
      → ((a : A) (s' : S) → R a s' → Ends P Q (f (ok a)) s')
      → Ends P Q (attempt m >>= f) s
  unfolding attempt ◌>>=◌
  attempt-Ends {A} {R} m f {s} h g k = record { ended = go (m s) h.ended }
    where
      go : (r : Out X A × S) → Ended P R r → Ended {X = X} P Q (let (o, s') = r in f o s')
      go (ok a, s') j = (k a s' j).ended
      go (err e, s') j = (g e s' j).ended

  -- A stronger ending implies a weaker one.
  pub weaken-Ends :
      {P' : S → Type 0} {Q' : B → S → Type 0} {m : Action S X B} {s : S}
      → ((s : S) → P' s → P s)
      → ((b : B) (s : S) → Q' b s → Q b s)
      → Ends P' Q' m s
      → Ends P Q m s
  weaken-Ends {P'} {Q'} {m} {s} f g h = record { ended = go (m s) h.ended }
    where
      go : (r : Out X B × S) → Ended P' Q' r → Ended P Q r
      go (ok b, s') j = g b s' j
      go (err e, s') j = f s' j

module _ {S X : Type 0} {P : S → Type 0} {Q : Unit {0} → S → Type 0} where
  pub assign-Ends : (g : S → S) {s : S} → Q tt (g s) → Ends {X = X} P Q (modify g) s
  unfolding modify
  assign-Ends g h = record { ended = h }
