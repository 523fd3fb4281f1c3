-- ===== src/Budget/Reach.antt =====
-- pipeline_budget.go: every order in which its operations may run. Each takes the lock for its whole
-- body, so concurrent steps interleave them as a sequence.
use gepago.Base.{
  ℕ, ◌≤◌, ◌<◌, ◌≡◌, ◌≢◌, refl, sym, subst, ◌∙◌, String, Bool, true, false, Option, none, some,
  arith, Bool-cases, Option-cases, inl, inr, ◌==◌, update_ne, update_lem, update,
}
use mathlib.Core.Path.{subst₂}
use gepago.Base.Int.{ℤ, pos, ◌≤ℤ◌, ◌<ℤ◌, +ℤ_parts}
use gepago.Usage.{Usage}
use gepago.Budget.Limits.{RunBudget, BudgetFailure}
use gepago.Budget.Store.{Frame, Store, Spending, new_run, start_run, enter_step}
use gepago.Budget.Walk.{Clock, check, admit, admit_attempt, add, add_unbudgeted}
use gepago.Budget.Retry.{RetryCall, begin_retry, report, finish}
use gepago.Budget.Sticky.{Stays, check-Stays, admit_attempt-Stays}
use gepago.Budget.Recording.{
  add-Stays, add_unbudgeted-Stays, enter_step-Stays, begin_retry-Stays, report-Stays, finish-Stays,
}
use gepago.Budget.Room.{admit-none_iff}
use gepago.Budget.Reserve.{
  Live, around, counted_if, admit-counts, admit_refused-Stays, admit-next_budget, around-RunRoom,
}

-- One operation, by a run or a step whose frame is live. A nested run starts under a live frame.
pub data Step : Store → Store → Type 0 where
  starts :
      (limits : RunBudget) (now : ℤ) (fs : Frame) (s : Store) → Step s (start_run limits now fs s).1
  enters : (step : String) (fs : Frame) (s : Store) → Step s (enter_step step fs s).1
  checks : (now : Clock) (fs : Frame) (s : Store) → Step s (check now fs s).1
  admits :
      (now : Clock) (fs : Frame) (s : Store) → Live s.next_budget fs → Step s (admit now fs s).1
  attempts : (now : Clock) (fs : Frame) (s : Store) → Step s (admit_attempt now fs s).1
  records : (usage : Usage) (fs : Frame) (s : Store) → Step s (add usage fs s)
  records_unbudgeted : (usage : Usage) (fs : Frame) (s : Store) → Step s (add_unbudgeted usage fs s)
  begins :
      (fs : Frame) (carried : Option RetryCall) (s : Store) → Step s (begin_retry fs carried s).2
  reports :
      (now : Clock) (r : RetryCall) (usage : Usage) (s : Store) → Step s (report now r usage s).1
  finishes : (r : RetryCall) (usage : Usage) (s : Store) → Step s (finish r usage s)

pub data Reach (s : Store) : Store → Type 0 where
  here : Reach s s
  after : {t u : Store} → Reach s t → Step t u → Reach s u

-- No run is there yet.
abbrev pub NoRuns : Store → Type 0
NoRuns s = s.next_budget ≡ 0

abbrev pub CallsWithin : Spending → Type 0
CallsWithin b = pos 0 <ℤ b.limits.max_model_calls → b.calls ≤ℤ b.limits.max_model_calls

abbrev pub Within : Store → Type 0
Within s = (i : ℕ) → i < s.next_budget → CallsWithin (s.budgets i)

Stays-Within : {s t : Store} → Stays s t → Within s → Within t
Stays-Within {s} {t} h w i lt =
    let live : i < s.next_budget = omega (arith, h.same) in
    subst₂ (λ (l : RunBudget) (c : ℤ). pos 0 <ℤ l.max_model_calls → c ≤ℤ l.max_model_calls)
      (sym (h.runs i live).limits) (sym (h.runs i live).calls) (w i live)

start_run-Within :
    (limits : RunBudget) (now : ℤ) (fs : Frame) (s : Store)
    → Within s
    → Within (start_run limits now fs s).1
unfolding start_run
start_run-Within limits now fs s w i lt = elim (Bool-cases (i == s.next_budget)) [
  | inl fresh ↦
      let e : update s.budgets s.next_budget (new_run limits now) i ≡ new_run limits now =
        update_lem s.budgets s.next_budget i (new_run limits now) ∙ rw fresh in
      subst CallsWithin (sym e) (λ h. omega arith)
  | inr old ↦
      let e : update s.budgets s.next_budget (new_run limits now) i ≡ s.budgets i =
        update_lem s.budgets s.next_budget i (new_run limits now) ∙ rw old in
      subst CallsWithin (sym e) (w i (ground arith))
]

counted_if-CallsWithin :
    (k : Bool) (b : Spending)
    → CallsWithin b
    → (k ≡ true → pos 0 <ℤ b.limits.max_model_calls → b.calls <ℤ b.limits.max_model_calls)
    → CallsWithin (counted_if k b)
counted_if-CallsWithin false b w room = w
counted_if-CallsWithin true b w room = λ h. omega (arith, +ℤ_parts b.calls (pos 1), room refl h)

admit-Within :
    (now : Clock) (fs : Frame) (s : Store)
    → Live s.next_budget fs
    → Within s
    → Within (admit now fs s).1
admit-Within now fs s live w = elim (Option-cases (admit now fs s).0) [
  | inl admitted ↦ λ i lt.
      let room = (admit-none_iff now fs s).0 admitted in
      subst CallsWithin (sym (admit-counts now fs s i live admitted)) (
        counted_if-CallsWithin (around i fs) (s.budgets i)
          (w i (omega (arith, admit-next_budget now fs s)))
          (λ k. (around-RunRoom now s i fs room k).calls_left))
  | inr (e, refused) ↦ Stays-Within (admit_refused-Stays now fs s (λ h. cc)) w
]

Step-Within : {s t : Store} → Step s t → Within s → Within t
Step-Within (starts limits now fs s) w = start_run-Within limits now fs s w
Step-Within (enters step fs s) w = Stays-Within (enter_step-Stays step fs s) w
Step-Within (checks now fs s) w = Stays-Within (check-Stays now fs s) w
Step-Within (admits now fs s live) w = admit-Within now fs s live w
Step-Within (attempts now fs s) w = Stays-Within (admit_attempt-Stays now fs s) w
Step-Within (records usage fs s) w = Stays-Within (add-Stays usage fs s) w
Step-Within (records_unbudgeted usage fs s) w = Stays-Within (add_unbudgeted-Stays usage fs s) w
Step-Within (begins fs carried s) w = Stays-Within (begin_retry-Stays fs carried s) w
Step-Within (reports now r usage s) w = Stays-Within (report-Stays now r usage s) w
Step-Within (finishes r usage s) w = Stays-Within (finish-Stays r usage s) w

Reach-Within : (s t : Store) → NoRuns s → Reach s t → Within t
Reach-Within s t none_yet here = λ i lt. absurd (omega (arith, none_yet))
Reach-Within s t none_yet (after {t = u} r st) = Step-Within st (Reach-Within s u none_yet r)

-- Whatever the runs and steps do from a store without runs, in whatever order, no run that sets
-- `MaxModelCalls` has made more model calls than that.
pub Reach-calls_within :
    (s t : Store) (i : ℕ)
    → NoRuns s
    → Reach s t
    → i < t.next_budget
    → pos 0 <ℤ (t.budgets i).limits.max_model_calls
    → (t.budgets i).calls ≤ℤ (t.budgets i).limits.max_model_calls
Reach-calls_within s t i none_yet r live limited = Reach-Within s t none_yet r i live limited

-- What every operation, the reservation of a call included, keeps of a run.
pub record Lasts (x y : Spending) : Type 0 where
  pub limits : y.limits ≡ x.limits
  pub err : (e : BudgetFailure) → x.err ≡ some e → y.err ≡ some e
  pub step_errs : (n : String) (e : BudgetFailure) → x.step_errs n ≡ some e → y.step_errs n ≡ some e

abbrev AllLast : Store → Store → Type 0
AllLast s t =
    (s.next_budget ≤ t.next_budget)
    × ((i : ℕ) → i < s.next_budget → Lasts (s.budgets i) (t.budgets i))

Stays-AllLast : {s t : Store} → Stays s t → AllLast s t
Stays-AllLast h = (
  omega (arith, h.same),
  λ i lt. let k = h.runs i lt in record { limits = k.limits; err = k.err; step_errs = k.step_errs },
)

counted_if-Lasts : (k : Bool) (b : Spending) → Lasts b (counted_if k b)
counted_if-Lasts true b = record { limits = refl; err = λ e h. h; step_errs = λ n e h. h }
counted_if-Lasts false b = record { limits = refl; err = λ e h. h; step_errs = λ n e h. h }

admit-AllLast :
    (now : Clock) (fs : Frame) (s : Store) → Live s.next_budget fs → AllLast s (admit now fs s).1
admit-AllLast now fs s live = elim (Option-cases (admit now fs s).0) [
  | inl admitted ↦ (
    omega (arith, admit-next_budget now fs s),
    λ i lt.
        subst (Lasts (s.budgets i)) (sym (admit-counts now fs s i live admitted))
          (counted_if-Lasts (around i fs) (s.budgets i)),
  )
  | inr (e, refused) ↦ Stays-AllLast (admit_refused-Stays now fs s (λ h. cc))
]

start_run-AllLast :
    (limits : RunBudget) (now : ℤ) (fs : Frame) (s : Store)
    → AllLast s (start_run limits now fs s).1
unfolding start_run
start_run-AllLast limits now fs s = (
  omega arith,
  λ i lt.
      subst (Lasts (s.budgets i)) (sym (update_ne s.budgets s.next_budget i _ (omega arith)))
        (counted_if-Lasts false (s.budgets i)),
)

Step-AllLast : {s t : Store} → Step s t → AllLast s t
Step-AllLast (starts limits now fs s) = start_run-AllLast limits now fs s
Step-AllLast (enters step fs s) = Stays-AllLast (enter_step-Stays step fs s)
Step-AllLast (checks now fs s) = Stays-AllLast (check-Stays now fs s)
Step-AllLast (admits now fs s live) = admit-AllLast now fs s live
Step-AllLast (attempts now fs s) = Stays-AllLast (admit_attempt-Stays now fs s)
Step-AllLast (records usage fs s) = Stays-AllLast (add-Stays usage fs s)
Step-AllLast (records_unbudgeted usage fs s) = Stays-AllLast (add_unbudgeted-Stays usage fs s)
Step-AllLast (begins fs carried s) = Stays-AllLast (begin_retry-Stays fs carried s)
Step-AllLast (reports now r usage s) = Stays-AllLast (report-Stays now r usage s)
Step-AllLast (finishes r usage s) = Stays-AllLast (finish-Stays r usage s)

Lasts-trans : {x y z : Spending} → Lasts x y → Lasts y z → Lasts x z
Lasts-trans h k = record {
  limits = k.limits ∙ h.limits;
  err = λ e p. k.err e (h.err e p);
  step_errs = λ n e p. k.step_errs n e (h.step_errs n e p);
}

Reach-AllLast : {s t : Store} → Reach s t → AllLast s t
Reach-AllLast {s} here = (omega arith, λ i lt. counted_if-Lasts false (s.budgets i))
Reach-AllLast (after r st) =
    let (grows, lasts) = Reach-AllLast r in
    let (more, last) = Step-AllLast st in
    (omega arith, λ i lt. Lasts-trans (lasts i lt) (last i (omega arith)))

-- Once a run has failed, no model call of it, or of a step or a run inside it, is ever admitted.
pub Reach-stopped :
    (s t : Store) (i : ℕ) (e : BudgetFailure) (now : Clock) (fs : Frame)
    → i < s.next_budget
    → (s.budgets i).err ≡ some e
    → Reach s t
    → around i fs ≡ true
    → (admit now fs t).0 ≢ none
Reach-stopped s t i e now fs lt failed r inside admitted =
    let room = around-RunRoom now t i fs ((admit-none_iff now fs t).0 admitted) inside in
    let still = ((Reach-AllLast r).1 i lt).err e failed in cc (room.alive, still)
