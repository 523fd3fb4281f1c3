-- ===== src/Budget/Checks.antt =====
-- The checks of pipeline_budget.go, frame by frame: `checkLocked`, `checkTokens`, `checkStepTokens`
-- and the tests of `refusalLocked`.
use gepago.Base.{
  ℕ, ◌≡◌, ◌↔◌, refl, sym, ap, subst, ◌∙◌, String, Bool, true, false, Option, none, some, arith,
}
use gepago.Base.Int.{ℤ, pos, ◌+ℤ◌, ◌-ℤ◌, ◌≤ℤ◌, ◌<ℤ◌}
use gepago.Budget.Limits.{BudgetFailure, step_limit}
use gepago.Budget.Store.{
  FrameRef, Store, Spending, Outcome, is_run, spent, enforce, enforce_step, over_tokens,
  over_step_tokens, check_tokens, check_step_tokens,
}
use gepago.Budget.Walk.{
  Clock, check_frame, over_duration, over_calls, check_calls, refusal_run, ◌and_then◌,
}
use gepago.Budget.Walks.{and_then-none, and_then_of_none}

pub over_tokens-none :
    (b : Spending) (n : ℤ)
    → (over_tokens b n ≡ none) ↔ (pos 0 <ℤ b.limits.max_tokens → n ≤ℤ b.limits.max_tokens)
unfolding over_tokens
over_tokens-none b n = ground arith

pub over_calls-none :
    (b : Spending)
    → (over_calls b ≡ none)
      ↔ (pos 0 <ℤ b.limits.max_model_calls → b.calls <ℤ b.limits.max_model_calls)
unfolding over_calls
over_calls-none b = ground arith

over_duration-none :
    (b : Spending) (now : ℤ)
    → (over_duration b now ≡ none)
      ↔ (pos 0 <ℤ b.limits.max_duration → now -ℤ b.start <ℤ b.limits.max_duration)
unfolding over_duration
over_duration-none b now = ground arith

pub over_step_tokens-none :
    (b : Spending) (step : String) (n : ℤ)
    → (over_step_tokens b step n ≡ none) ↔ (
        pos 0 <ℤ step_limit b.limits.per_step_tokens step
        → n ≤ℤ step_limit b.limits.per_step_tokens step)
unfolding over_step_tokens
over_step_tokens-none b step n = ground arith

enforce-none :
    (s : Store) (i : ℕ) (o : Option BudgetFailure)
    → (enforce s i o).0 ≡ none
    → (o ≡ none) × ((enforce s i o).1 ≡ s)
unfolding enforce
enforce-none s i none h = (refl, refl)
enforce-none s i (some e) h = cc

enforce_step-none :
    (s : Store) (f : FrameRef) (o : Option BudgetFailure)
    → (enforce_step s f o).0 ≡ none
    → (o ≡ none) × ((enforce_step s f o).1 ≡ s)
unfolding enforce_step
enforce_step-none s f none h = (refl, refl)
enforce_step-none s f (some e) h = cc

pub enforce_of_none :
    (s : Store) (i : ℕ) {o : Option BudgetFailure} → o ≡ none → enforce s i o ≡ (none, s)
unfolding enforce
enforce_of_none s i h = rw h

pub enforce_step_of_none :
    (s : Store) (f : FrameRef) {o : Option BudgetFailure}
    → o ≡ none
    → enforce_step s f o ≡ (none, s)
unfolding enforce_step
enforce_step_of_none s f h = rw h

-- What `checkLocked` asks of a run, and what the rest of `refusalLocked` asks of it.
abbrev pub RunChecked : ℤ → Spending → Type 0
RunChecked now b =
    (b.err ≡ none) × (pos 0 <ℤ b.limits.max_duration → now -ℤ b.start <ℤ b.limits.max_duration)

abbrev pub RunAllowed : Spending → Type 0
RunAllowed b =
    (pos 0 <ℤ b.limits.max_tokens → b.tokens +ℤ b.pending ≤ℤ b.limits.max_tokens)
    × (pos 0 <ℤ b.limits.max_model_calls → b.calls <ℤ b.limits.max_model_calls)

abbrev pub StepAllowed : Spending → String → Type 0
StepAllowed b step =
    pos 0 <ℤ step_limit b.limits.per_step_tokens step
    → b.step_tokens step +ℤ b.step_pending step ≤ℤ step_limit b.limits.per_step_tokens step

abbrev pub Checked : Clock → Store → FrameRef → Type 0
Checked now s f =
    (is_run f ≡ true → RunChecked (now f.budget) (s.budgets f.budget))
    × (is_run f ≡ false → (s.budgets f.budget).step_errs f.step ≡ none)

abbrev pub Allowed : Store → FrameRef → Type 0
Allowed s f =
    (is_run f ≡ true → RunAllowed (s.budgets f.budget))
    × (is_run f ≡ false → StepAllowed (s.budgets f.budget) f.step)

run_check : ℤ → Store → ℕ → Outcome
run_check now s i =
    let b = s.budgets i in (b.err, s) and_then (λ t. enforce t i (over_duration b now))

run_check-none :
    (now : ℤ) (s : Store) (i : ℕ)
    → (run_check now s i).0 ≡ none
    → RunChecked now (s.budgets i) × ((run_check now s i).1 ≡ s)
unfolding run_check
run_check-none now s i h =
    let b = s.budgets i in
    let (alive, timed, e) = and_then-none (b.err, s) (λ t. enforce t i (over_duration b now)) h in
    let (limit, same) = enforce-none s i (over_duration b now) timed in
    ((alive, (over_duration-none b now).0 limit), ap (λ (r : Outcome). r.1) e ∙ same)

run_check_of :
    (now : ℤ) (s : Store) (i : ℕ) → RunChecked now (s.budgets i) → run_check now s i ≡ (none, s)
unfolding run_check
run_check_of now s i h =
    let b = s.budgets i in
    and_then_of_none (b.err, s) (λ t. enforce t i (over_duration b now)) h.0
    ∙ enforce_of_none s i ((over_duration-none b now).1 h.1)

pub check_frame-none :
    (now : Clock) (s : Store) (f : FrameRef)
    → (check_frame now s f).0 ≡ none
    → Checked now s f × ((check_frame now s f).1 ≡ s)
unfolding check_frame run_check
check_frame-none now s f h = by_kind (is_run f) refl
  where
    by_kind : (b : Bool) → is_run f ≡ b → Checked now s f × ((check_frame now s f).1 ≡ s)
    by_kind true run =
        let (p, q) = run_check-none (now f.budget) s f.budget (rw run at h) in
        ((λ _. p, λ n. absurd (cc)), rw run q)
    by_kind false step = ((λ r. absurd (cc), λ _. rw step at h), rw step)

pub check_frame_of :
    (now : Clock) (s : Store) (f : FrameRef) → Checked now s f → check_frame now s f ≡ (none, s)
unfolding check_frame run_check
check_frame_of now s f h = by_kind (is_run f) refl
  where
    by_kind : (b : Bool) → is_run f ≡ b → check_frame now s f ≡ (none, s)
    by_kind true run = rw run (run_check_of (now f.budget) s f.budget (h.0 run))
    by_kind false step = rw (step, h.1 step)

pub spent_run :
    (s : Store) (f : FrameRef)
    → is_run f ≡ true
    → spent s f ≡ (s.budgets f.budget).tokens +ℤ (s.budgets f.budget).pending
unfolding spent
spent_run s f run = rw run

pub spent_step :
    (s : Store) (f : FrameRef)
    → is_run f ≡ false
    → let b = s.budgets f.budget in spent s f ≡ b.step_tokens f.step +ℤ b.step_pending f.step
unfolding spent
spent_step s f step = rw step

pub check_tokens-none :
    (s : Store) (i : ℕ) (n : ℤ)
    → (check_tokens s i n).0 ≡ none
    → let limit = (s.budgets i).limits.max_tokens in
      (pos 0 <ℤ limit → n ≤ℤ limit) × ((check_tokens s i n).1 ≡ s)
unfolding check_tokens
check_tokens-none s i n h =
    let (p, same) = enforce-none s i (over_tokens (s.budgets i) n) h in
    ((over_tokens-none (s.budgets i) n).0 p, same)

check_calls-none :
    (s : Store) (i : ℕ)
    → (check_calls s i).0 ≡ none
    → let b = s.budgets i in
      (pos 0 <ℤ b.limits.max_model_calls → b.calls <ℤ b.limits.max_model_calls)
      × ((check_calls s i).1 ≡ s)
unfolding check_calls
check_calls-none s i h =
    let (p, same) = enforce-none s i (over_calls (s.budgets i)) h in
    ((over_calls-none (s.budgets i)).0 p, same)

pub check_step_tokens-none :
    (s : Store) (f : FrameRef) (n : ℤ)
    → (check_step_tokens s f n).0 ≡ none
    → let limit = step_limit (s.budgets f.budget).limits.per_step_tokens f.step in
      (pos 0 <ℤ limit → n ≤ℤ limit) × ((check_step_tokens s f n).1 ≡ s)
unfolding check_step_tokens
check_step_tokens-none s f n h =
    let b = s.budgets f.budget in
    let (p, same) = enforce_step-none s f (over_step_tokens b f.step n) h in
    ((over_step_tokens-none b f.step n).0 p, same)

pub refusal_run-none :
    (s : Store) (f : FrameRef)
    → is_run f ≡ true
    → (refusal_run s f).0 ≡ none
    → RunAllowed (s.budgets f.budget) × ((refusal_run s f).1 ≡ s)
refusal_run-none s f run h =
    let n = spent s f in
    let calls = λ (t : Store). check_calls t f.budget in
    let (p, q, e) = and_then-none (check_tokens s f.budget n) calls (unfold refusal_run in h) in
    let (within, same) = check_tokens-none s f.budget n p in
    let q' : (calls s).0 ≡ none = subst (λ t. (calls t).0 ≡ none) same q in
    let (left, same') = check_calls-none s f.budget q' in
    let limit = (s.budgets f.budget).limits.max_tokens in
    (
      (subst (λ m. pos 0 <ℤ limit → m ≤ℤ limit) (spent_run s f run) within, left),
      unfold refusal_run in ap (λ (r : Outcome). r.1) (e ∙ ap calls same) ∙ same',
    )

pub refusal_run_of :
    (s : Store) (f : FrameRef)
    → is_run f ≡ true
    → RunAllowed (s.budgets f.budget)
    → refusal_run s f ≡ (none, s)
unfolding refusal_run check_tokens check_calls
refusal_run_of s f run h =
    let b = s.budgets f.budget in
    let limit = b.limits.max_tokens in
    let within : check_tokens s f.budget (spent s f) ≡ (none, s) = enforce_of_none s f.budget (
      (over_tokens-none b (spent s f)).1
        (subst (λ m. pos 0 <ℤ limit → m ≤ℤ limit) (sym (spent_run s f run)) h.0)) in
    ap (λ (r : Outcome). r and_then (λ t. check_calls t f.budget)) within
    ∙ enforce_of_none s f.budget ((over_calls-none b).1 h.1)
