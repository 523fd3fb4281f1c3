-- ===== src/Budget/Walks.antt =====
-- pipeline_budget.go: walks over frames, whatever their check.
use gepago.Base.{◌≡◌, refl, ap, subst, ◌∙◌, none, some, [], ◌∷◌, All}
use gepago.Budget.Store.{FrameRef, Frame, Store, Outcome}
use gepago.Budget.Walk.{Check, ◌and_then◌, walk}

-- A relation between the stores before and after, kept by each check, is kept by the walk.
module _ (R : Store → Store → Type 0) (here : (s : Store) → R s s)
    (then : (s t u : Store) → R s t → R t u → R s u) where
  pub and_then-rel :
      (s : Store) (r : Outcome) (k : Store → Outcome)
      → R s r.1
      → ((t : Store) → R t (k t).1)
      → R s (r and_then k).1
  and_then-rel s (none, t) k h g = then s t (k t).1 h (g t)
  and_then-rel s (some e, t) k h g = h

  pub walk-rel :
      (check : Check) (one : (s : Store) (f : FrameRef) → R s (check s f).1) (fs : Frame)
      (s : Store)
      → R s (walk check fs s).1
  unfolding walk
  walk-rel check one [] s = here s
  walk-rel check one (f ∷ fs) s =
      and_then-rel s (check s f) (walk check fs) (one s f) (λ t. walk-rel check one fs t)

-- A check that finds nothing changes nothing.
abbrev pub IsQuiet : Check → Type 0
IsQuiet check = (s : Store) (f : FrameRef) → (check s f).0 ≡ none → (check s f).1 ≡ s

pub and_then-none :
    (r : Outcome) (k : Store → Outcome)
    → (r and_then k).0 ≡ none
    → (r.0 ≡ none) × ((k r.1).0 ≡ none) × ((r and_then k) ≡ k r.1)
and_then-none (none, t) k h = (refl, h, refl)
and_then-none (some e, t) k h = cc

pub and_then_of_none : (r : Outcome) (k : Store → Outcome) → r.0 ≡ none → (r and_then k) ≡ k r.1
and_then_of_none (none, t) k h = refl
and_then_of_none (some e, t) k h = cc

-- A walk of quiet checks finds nothing exactly when no check does, and then changes nothing.
pub walk-none :
    (check : Check) (quiet : IsQuiet check) (fs : Frame) (s : Store)
    → (walk check fs s).0 ≡ none
    → All (λ f. (check s f).0 ≡ none) fs × (walk check fs s ≡ (none, s))
unfolding walk
walk-none check quiet [] s h = (tt, refl)
walk-none check quiet (f ∷ fs) s h =
    let (p, q, e) = and_then-none (check s f) (walk check fs) h in
    let same = quiet s f p in
    let (all, rest) = walk-none check quiet fs s (subst (λ t. (walk check fs t).0 ≡ none) same q) in
    ((p, all), e ∙ ap (walk check fs) same ∙ rest)

pub walk_of_none :
    (check : Check) (quiet : IsQuiet check) (fs : Frame) (s : Store)
    → All (λ f. (check s f).0 ≡ none) fs
    → walk check fs s ≡ (none, s)
unfolding walk
walk_of_none check quiet [] s h = refl
walk_of_none check quiet (f ∷ fs) s h =
    and_then_of_none (check s f) (walk check fs) h.0
    ∙ ap (walk check fs) (quiet s f h.0)
    ∙ walk_of_none check quiet fs s h.1
