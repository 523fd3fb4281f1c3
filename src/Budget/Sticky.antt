-- ===== src/Budget/Sticky.antt =====
-- pipeline_budget.go: the limits, the call counts and the errors of the runs that are there.
use gepago.Base.{
  ℕ, ◌<◌, ◌≡◌, refl, String, true, false, Option, none, some, arith, Bool-cases, if-rel, ◌⊎◌,
  Option-cases, inl, inr, str_eq, str_eq_iff, ◌==◌, update, update_lem, put, put_lem, ◌∙◌, subst,
}
use gepago.Base.Int.{ℤ}
use gepago.Budget.Limits.{BudgetFailure, step_limit}
use gepago.Budget.Store.{
  FrameRef, Frame, Store, Spending, is_run, set_budget, fail, spent, enforce, enforce_step,
  over_step_tokens, check_tokens, check_step_tokens, step_failure,
}
use gepago.Budget.Walk.{
  Clock, check_frame, check, attempt_frame, check_calls, refusal_frame, refusal, admit_attempt,
}
use gepago.Budget.Walks.{and_then-rel, walk-rel}

-- The limits and the call count stay as they are, and an error that is there stays.
pub record Sticks (x y : Spending) : Type 0 where
  pub limits : y.limits ≡ x.limits
  pub calls : y.calls ≡ x.calls
  pub err : (e : BudgetFailure) → x.err ≡ some e → y.err ≡ some e
  pub step_errs : (n : String) (e : BudgetFailure) → x.step_errs n ≡ some e → y.step_errs n ≡ some e

pub Sticks-refl : (x : Spending) → Sticks x x
Sticks-refl x = record { limits = refl; calls = refl; err = λ e h. h; step_errs = λ n e h. h }

pub Sticks-trans : {x y z : Spending} → Sticks x y → Sticks y z → Sticks x z
Sticks-trans h k = record {
  limits = k.limits ∙ h.limits;
  calls = k.calls ∙ h.calls;
  err = λ e p. k.err e (h.err e p);
  step_errs = λ n e p. k.step_errs n e (h.step_errs n e p);
}

-- The same runs are there, and they stick.
pub record Stays (s t : Store) : Type 0 where
  pub same : t.next_budget ≡ s.next_budget
  pub runs : (i : ℕ) → i < s.next_budget → Sticks (s.budgets i) (t.budgets i)

pub Stays-refl : (s : Store) → Stays s s
Stays-refl s = record { same = refl; runs = λ i h. Sticks-refl (s.budgets i) }

pub Stays-trans : (s t u : Store) → Stays s t → Stays t u → Stays s u
Stays-trans s t u h k = record {
  same = k.same ∙ h.same;
  runs = λ i p. Sticks-trans (h.runs i p) (k.runs i (omega (arith, h.same)));
}

pub set_budget-Stays :
    (s : Store) (i : ℕ) (b : Spending) → Sticks (s.budgets i) b → Stays s (set_budget s i b)
set_budget-Stays s i b h = record { same = refl; runs = λ j p. written j (Bool-cases (j == i)) }
  where
    written :
        (j : ℕ)
        → ((j == i) ≡ true) ⊎ ((j == i) ≡ false)
        → Sticks (s.budgets j) (update s.budgets i b j)
    written j (inl e) =
        rw (update_lem s.budgets i j b, e)
          (let same : i ≡ j = ground arith in subst (λ k. Sticks (s.budgets k) b) same h)
    written j (inr e) = rw (update_lem s.budgets i j b, e) (Sticks-refl (s.budgets j))

fail-Sticks : (e : BudgetFailure) (b : Spending) → Sticks b (fail e b).1
unfolding fail
fail-Sticks e b = elim (Option-cases b.err) [
  | inl fresh ↦
      rw (fresh, fail)
        (record { limits = refl; calls = refl; err = λ x h. cc; step_errs = λ n x h. h })
  | inr (first, old) ↦
      rw (old, fail)
        (record { limits = refl; calls = refl; err = λ x h. old ∙ h; step_errs = λ n x h. h })
]

pub enforce-Stays : (s : Store) (i : ℕ) (o : Option BudgetFailure) → Stays s (enforce s i o).1
unfolding enforce
enforce-Stays s i none = Stays-refl s
enforce-Stays s i (some e) = set_budget-Stays s i _ (fail-Sticks e (s.budgets i))

pub check_tokens-Stays : (s : Store) (i : ℕ) (n : ℤ) → Stays s (check_tokens s i n).1
check_tokens-Stays s i n = unfold check_tokens in enforce-Stays s i _

check_calls-Stays : (s : Store) (i : ℕ) → Stays s (check_calls s i).1
check_calls-Stays s i = unfold check_calls in enforce-Stays s i _

put-Sticks :
    (b : Spending) (step : String) (x : BudgetFailure)
    → ((e : BudgetFailure) → b.step_errs step ≡ some e → some x ≡ some e)
    → Sticks b (record b { step_errs = put b.step_errs step (some x) })
put-Sticks b step x kept = record {
  limits = refl;
  calls = refl;
  err = λ e h. h;
  step_errs = λ m e h. rw (put_lem b.step_errs step m) (
      if-rel (λ o. o ≡ some e) (str_eq m step) (some x) (b.step_errs m)
        (λ same. kept e (subst (λ k. b.step_errs k ≡ some e) ((str_eq_iff m step).0 same) h))
        (λ _. h));
}

step_failure-kept :
    (o : Option BudgetFailure) (step : String) (limit n : ℤ) {e : BudgetFailure}
    → o ≡ some e
    → some (step_failure o step limit n) ≡ some e
step_failure-kept none step limit n h = cc
step_failure-kept (some x) step limit n h = h

-- The error that a step's check fails with is the one that the step has, if it has one.
over_step_tokens-kept :
    (b : Spending) (step : String) (n : ℤ) {e x : BudgetFailure}
    → over_step_tokens b step n ≡ some x
    → b.step_errs step ≡ some e
    → some x ≡ some e
unfolding over_step_tokens
over_step_tokens-kept b step n h k = ground (
  arith,
  step_failure-kept (b.step_errs step) step (step_limit b.limits.per_step_tokens step) n k,
)

enforce_step-Stays :
    (s : Store) (f : FrameRef) (o : Option BudgetFailure)
    → ((e x : BudgetFailure)
        → o ≡ some x
        → (s.budgets f.budget).step_errs f.step ≡ some e
        → some x ≡ some e)
    → Stays s (enforce_step s f o).1
unfolding enforce_step
enforce_step-Stays s f none h = Stays-refl s
enforce_step-Stays s f (some x) h =
    let b = s.budgets f.budget in
    let kept =
      set_budget-Stays s f.budget (record b { step_errs = put b.step_errs f.step (some x) })
        (put-Sticks b f.step x (λ e. h e x refl)) in
    record { same = refl; runs = kept.runs }

pub check_step_tokens-Stays :
    (s : Store) (f : FrameRef) (n : ℤ) → Stays s (check_step_tokens s f n).1
check_step_tokens-Stays s f n =
    unfold check_step_tokens in
    enforce_step-Stays s f _ (λ e x. over_step_tokens-kept (s.budgets f.budget) f.step n)

check_frame-Stays : (now : Clock) (s : Store) (f : FrameRef) → Stays s (check_frame now s f).1
unfolding check_frame
check_frame-Stays now s f = elim (Bool-cases (is_run f)) [
  | inl run ↦ rw run (
      and_then-rel Stays Stays-refl Stays-trans s _ _ (Stays-refl s)
        (λ t. enforce-Stays t f.budget _))
  | inr step ↦ rw step (Stays-refl s)
]

attempt_frame-Stays : (s : Store) (f : FrameRef) → Stays s (attempt_frame s f).1
attempt_frame-Stays s f = elim (Bool-cases (is_run f)) [
  | inl run ↦ unfold attempt_frame in rw run (check_tokens-Stays s f.budget (spent s f))
  | inr step ↦ unfold attempt_frame in rw step (check_step_tokens-Stays s f (spent s f))
]

refusal_frame-Stays : (s : Store) (f : FrameRef) → Stays s (refusal_frame s f).1
refusal_frame-Stays s f = elim (Bool-cases (is_run f)) [
  | inl run ↦
      unfold refusal_frame in
      rw run (
        and_then-rel Stays Stays-refl Stays-trans s _ _ (check_tokens-Stays s f.budget (spent s f))
          (λ t. check_calls-Stays t f.budget))
  | inr step ↦ unfold refusal_frame in rw step (check_step_tokens-Stays s f (spent s f))
]

pub check-Stays : (now : Clock) (fs : Frame) (s : Store) → Stays s (check now fs s).1
check-Stays now fs s =
    unfold check in
    walk-rel Stays Stays-refl Stays-trans (check_frame now) (check_frame-Stays now) fs s

pub refusal-Stays : (now : Clock) (fs : Frame) (s : Store) → Stays s (refusal now fs s).1
refusal-Stays now fs s =
    unfold refusal in
    and_then-rel Stays Stays-refl Stays-trans s _ _ (check-Stays now fs s)
      (walk-rel Stays Stays-refl Stays-trans refusal_frame refusal_frame-Stays fs)

pub admit_attempt-Stays :
    (now : Clock) (fs : Frame) (s : Store) → Stays s (admit_attempt now fs s).1
admit_attempt-Stays now fs s =
    unfold admit_attempt in
    and_then-rel Stays Stays-refl Stays-trans s _ _ (check-Stays now fs s)
      (walk-rel Stays Stays-refl Stays-trans attempt_frame attempt_frame-Stays fs)
