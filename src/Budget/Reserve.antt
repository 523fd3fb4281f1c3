-- ===== src/Budget/Reserve.antt =====
-- `admit` of pipeline_budget.go: the runs in which a call is counted.
use gepago.Base.{
  ℕ, ◌≤◌, ◌<◌, ◌≡◌, ◌≢◌, refl, ap, subst, ◌∙◌, Bool, true, false, none, some, [], ◌∷◌, ◌&&◌, ◌||◌,
  arith, Bool-cases, inl, inr, All, if◌then◌else◌, update_lem, ◌==◌,
}
use gepago.Base.Int.{pos, ◌+ℤ◌}
use gepago.Budget.Store.{FrameRef, Frame, Store, Spending, Outcome, is_run, set_budget}
use gepago.Budget.Walk.{Clock, reserve_frame, reserve, admit, refusal, ◌and_then◌}
use gepago.Budget.Sticky.{Stays, refusal-Stays}
use gepago.Budget.Walks.{and_then-none}
use gepago.Budget.Room.{Room, RunRoom, refusal-none}

-- The frames' runs are there, and no run is around itself: from the innermost run out, the
-- addresses of the runs fall.
abbrev pub Live : ℕ → Frame → Type 0
Live n [] = Unit
Live n (f ∷ fs) = (f.budget < n) × Live (if is_run f then f.budget else n) fs

-- The run of this address is one of those around the frame.
abbrev pub around : ℕ → Frame → Bool
around i [] = false
around i (f ∷ fs) = is_run f && i == f.budget || around i fs

around_far : (i n : ℕ) (fs : Frame) → Live n fs → n ≤ i → around i fs ≡ false
around_far i n [] h far = refl
around_far i n (f ∷ fs) (h, rest) far = elim (Bool-cases (is_run f)) [
  | inl run ↦
      let below : Live f.budget fs = rw run at rest in
      rw run (ground (arith, around_far i f.budget fs below (omega arith)))
  | inr step ↦ let below : Live n fs = rw step at rest in rw step (around_far i n fs below far)
]

-- The run with one more call, where the test holds.
abbrev pub counted_if : Bool → Spending → Spending
counted_if k b = if k then record b { calls = b.calls +ℤ pos 1 } else b

counted_budget :
    (fs : Frame) (s : Store) (j i : ℕ)
    → Live j fs
    → let t = set_budget s j (counted_if true (s.budgets j)) in
      counted_if (around i fs) (t.budgets i) ≡ counted_if (i == j || around i fs) (s.budgets i)
counted_budget fs s j i h = elim (Bool-cases (i == j)) [
  | inl same ↦
      let e : i ≡ j = ground arith in
      rw (update_lem s.budgets j i, same, around_far i j fs h (omega arith), e)
  | inr other ↦ rw (update_lem s.budgets j i, other)
]

reserve_frame_run :
    (s : Store) (f : FrameRef)
    → is_run f ≡ true
    → reserve_frame s f ≡ set_budget s f.budget (counted_if true (s.budgets f.budget))
unfolding reserve_frame
reserve_frame_run s f run = rw run

reserve_frame_step : (s : Store) (f : FrameRef) → is_run f ≡ false → reserve_frame s f ≡ s
unfolding reserve_frame
reserve_frame_step s f step = rw step

-- The last loop counts once in every run around the frame, and in no other.
pub reserve-budgets :
    (fs : Frame) (s : Store) (n i : ℕ)
    → Live n fs
    → (reserve fs s).budgets i ≡ counted_if (around i fs) (s.budgets i)
unfolding reserve
reserve-budgets [] s n i h = refl
reserve-budgets (f ∷ fs) s n i (h, rest) = elim (Bool-cases (is_run f)) [
  | inl run ↦
      let below : Live f.budget fs = rw run at rest in
      ap (λ t. (reserve fs t).budgets i) (reserve_frame_run s f run)
      ∙ reserve-budgets fs _ f.budget i below
      ∙ rw run (counted_budget fs s f.budget i below)
  | inr step ↦
      let below : Live n fs = rw step at rest in
      ap (λ t. (reserve fs t).budgets i) (reserve_frame_step s f step)
      ∙ rw step (reserve-budgets fs s n i below)
]

-- Nothing else of the store changes.
pub reserve-next_budget : (fs : Frame) (s : Store) → (reserve fs s).next_budget ≡ s.next_budget
unfolding reserve
reserve-next_budget [] s = refl
reserve-next_budget (f ∷ fs) s = elim (Bool-cases (is_run f)) [
  | inl run ↦
      ap (λ t. (reserve fs t).next_budget) (reserve_frame_run s f run) ∙ reserve-next_budget fs _
  | inr step ↦
      ap (λ t. (reserve fs t).next_budget) (reserve_frame_step s f step) ∙ reserve-next_budget fs s
]

-- An admitted call is counted once in every run around it, in no other, and changes no other part
-- of a run.
pub admit-counts :
    (now : Clock) (fs : Frame) (s : Store) (i : ℕ)
    → Live s.next_budget fs
    → (admit now fs s).0 ≡ none
    → (admit now fs s).1.budgets i ≡ counted_if (around i fs) (s.budgets i)
unfolding admit
admit-counts now fs s i live h =
    let (p, _, e) = and_then-none (refusal now fs s) (λ t. (none, reserve fs t)) h in
    ap (λ (r : Outcome). r.1.budgets i)
      (e ∙ ap (λ (r : Outcome). (none, reserve fs r.1)) (refusal-none now fs s p).1)
    ∙ reserve-budgets fs s s.next_budget i live

and_reserve : Frame → Outcome → Outcome
and_reserve fs r = r and_then (λ t. (none, reserve fs t))

-- A refused call is counted in no run, changes no limit and takes no error back.
pub admit_refused-Stays :
    (now : Clock) (fs : Frame) (s : Store) → (admit now fs s).0 ≢ none → Stays s (admit now fs s).1
unfolding admit and_reserve
admit_refused-Stays now fs s refused = kept (refusal now fs s) (refusal-Stays now fs s) refused
  where
    kept : (r : Outcome) → Stays s r.1 → (and_reserve fs r).0 ≢ none → Stays s (and_reserve fs r).1
    kept (none, t) stays k = absurd (k refl)
    kept (some e, t) stays k = stays

pub admit-next_budget :
    (now : Clock) (fs : Frame) (s : Store) → (admit now fs s).1.next_budget ≡ s.next_budget
unfolding admit and_reserve
admit-next_budget now fs s = kept (refusal now fs s) (refusal-Stays now fs s)
  where
    kept : (r : Outcome) → Stays s r.1 → (and_reserve fs r).1.next_budget ≡ s.next_budget
    kept (none, t) stays = reserve-next_budget fs t ∙ stays.same
    kept (some e, t) stays = stays.same

-- A run around a frame whose frames all have room has room.
pub around-RunRoom :
    (now : Clock) (s : Store) (i : ℕ) (fs : Frame)
    → All (Room now s) fs
    → around i fs ≡ true
    → RunRoom (now i) (s.budgets i)
around-RunRoom now s i [] room h = cc
around-RunRoom now s i (f ∷ fs) (room, rest) h = elim (Bool-cases (is_run f && i == f.budget)) [
  | inl this ↦
      let e : f.budget ≡ i = ground arith in
      let run : is_run f ≡ true = ground arith in
      subst (λ j. RunRoom (now j) (s.budgets j)) e (room.0 run)
  | inr other ↦ around-RunRoom now s i fs rest (rw other at h)
]
