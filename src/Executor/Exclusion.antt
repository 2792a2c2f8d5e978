-- ===== src/Executor/Exclusion.antt =====
-- juju/hooks/executor.py: whatever is called and however the calls interleave, one hook runs at a
-- time.
use trusted_juju.Prelude.{
  ℕ, zero, suc, ◌+◌, ◌≤◌, Bool, true, false, Option, none, some, List, [], ◌∷◌, ◌++◌, ◌≡◌, ◌↔◌,
  refl, if◌then◌else◌, ap, arith, Bool-cases, inl, inr,
}
use trusted_juju.Executor.Steps.{
  Hook, Job, stop_job, hook_job, Thread, getting, locking, executing, stopping, priority_locking,
  priority_executing, skipped, Executor, initial, thread_at, replace_at, loop_head, finish, begin,
  skip, take_job, run_next, end_stop, run_priority, resume, resume_option, Input, call_start,
  call_stop, call_hook, call_priority, wake, step, steps,
}

-- Whether the thread waits for the end of a hook.
abbrev pub runs : Thread → ℕ
runs (executing hook) = 1
runs (priority_executing hook) = 1
runs _ = 0

unfoldable pub running_hooks : List Thread → ℕ
running_hooks [] = 0
running_hooks (t ∷ threads) = runs t + running_hooks threads

abbrev runs_option : Option Thread → ℕ
runs_option none = 0
runs_option (some t) = runs t

abbrev held : Bool → ℕ
held true = 1
held false = 0

running_hooks-append :
    (threads more : List Thread)
    → running_hooks (threads ++ more) ≡ running_hooks threads + running_hooks more
unfolding running_hooks
running_hooks-append [] more = omega arith
running_hooks-append (t ∷ threads) more = omega (arith, running_hooks-append threads more)

same_thread : {t u : Thread} → ◌≡◌ {A = Option Thread} (some u) (some t) → runs u ≡ runs t
same_thread h = cc

running_hooks-replace :
    (i : ℕ) (o : Option Thread) (t : Thread) (threads : List Thread)
    → thread_at i threads ≡ some t
    → running_hooks (replace_at i o threads) + runs t ≡ running_hooks threads + runs_option o
unfolding running_hooks replace_at thread_at
running_hooks-replace i o t [] h = absurd (ground arith)
running_hooks-replace zero none t (u ∷ threads) h = omega (arith, same_thread h)
running_hooks-replace zero (some t') t (u ∷ threads) h = omega (arith, same_thread h)
running_hooks-replace (suc i) o t (u ∷ threads) h =
    omega (arith, running_hooks-replace i o t threads h)

-- The lock is held exactly while a hook runs.
abbrev pub Guarded : Executor → Type 0
Guarded s = running_hooks s.threads ≡ held s.locked

loop_head-Guarded :
    (i : ℕ) (t : Thread) (s : Executor)
    → thread_at i s.threads ≡ some t
    → running_hooks s.threads ≡ held s.locked + runs t
    → Guarded (loop_head i s)
unfolding loop_head
loop_head-Guarded i t s h g = elim (Bool-cases s.running) [
  | inl e ↦ rw e (omega (arith, running_hooks-replace i (some getting) t s.threads h))
  | inr e ↦ rw e (omega (arith, running_hooks-replace i none t s.threads h))
]

held_bound : (b : Bool) → held b ≤ 1
held_bound true = omega arith
held_bound false = omega arith

-- A thread whose hook ends releases the lock.
finish-Guarded :
    (i : ℕ) (b : Bool) (hook : Hook) (t : Thread) (s : Executor)
    → thread_at i s.threads ≡ some t
    → runs t ≡ 1
    → Guarded s
    → running_hooks s.threads ≡ held (finish b hook s).locked + runs t
unfolding finish
finish-Guarded i b hook t s h one g =
    omega (arith, running_hooks-replace i none t s.threads h, held_bound s.locked)

take_job-Guarded :
    (i : ℕ) (jobs : List Job) (s : Executor)
    → thread_at i s.threads ≡ some getting
    → Guarded s
    → Guarded (take_job i jobs s)
unfolding take_job
take_job-Guarded i [] s h g = g
take_job-Guarded i (stop_job ∷ jobs) s h g =
    loop_head-Guarded i getting (record s { executions = jobs }) h (omega arith)
take_job-Guarded i (hook_job hook ∷ jobs) s h g =
    omega (arith, running_hooks-replace i (some (locking hook)) getting s.threads h)

unheld : {b : Bool} → b ≡ false → held b ≡ 0
unheld e = ap held e

if-Guarded :
    (b : Bool) (s1 s2 : Executor)
    → (b ≡ true → Guarded s1)
    → (b ≡ false → Guarded s2)
    → Guarded (if b then s1 else s2)
if-Guarded true s1 s2 g1 g2 = g1 refl
if-Guarded false s1 s2 g1 g2 = g2 refl

run_next-Guarded :
    (i : ℕ) (b : Bool) (hook : Hook) (s : Executor)
    → thread_at i s.threads ≡ some (locking hook)
    → s.locked ≡ false
    → Guarded s
    → Guarded (run_next i b hook s)
unfolding run_next begin skip
run_next-Guarded i b hook s h free g =
    let t = locking hook in
    let taken = running_hooks-replace i (some (executing hook)) t s.threads h in
    if-Guarded s.running _ _
      (λ _.
        if-Guarded b _ _ (λ _. omega (arith, taken, unheld free))
          (λ _.
            loop_head-Guarded i t (record s { fired = s.fired ++ (hook, skipped) ∷ [] }) h
              (omega arith)))
      (λ _. loop_head-Guarded i t s h (omega arith))

run_priority-Guarded :
    (i : ℕ) (b : Bool) (hook : Hook) (s : Executor)
    → thread_at i s.threads ≡ some (priority_locking hook)
    → s.locked ≡ false
    → Guarded s
    → Guarded (run_priority i b hook s)
unfolding run_priority begin skip
run_priority-Guarded i b hook s h free g =
    let t = priority_locking hook in
    let gone = running_hooks-replace i none t s.threads h in
    let kept = running_hooks-replace i (some (priority_executing hook)) t s.threads h in
    if-Guarded s.running _ _ (λ _. omega (arith, gone))
      (λ _. if-Guarded b _ _ (λ _. omega (arith, kept, unheld free)) (λ _. omega (arith, gone)))

resume-Guarded :
    (i : ℕ) (b : Bool) (t : Thread) (s : Executor)
    → thread_at i s.threads ≡ some t
    → Guarded s
    → Guarded (resume i b t s)
unfolding resume end_stop finish
resume-Guarded i b getting s h g = take_job-Guarded i s.executions s h g
resume-Guarded i b (locking hook) s h g =
    if-Guarded s.locked _ _ (λ _. g) (λ free. run_next-Guarded i b hook s h free g)
resume-Guarded i b (executing hook) s h g =
    loop_head-Guarded i (executing hook) (finish b hook s) h
      (finish-Guarded i b hook (executing hook) s h refl g)
resume-Guarded i b stopping s h g =
    if-Guarded s.locked _ _ (λ _. g)
      (λ _. omega (arith, running_hooks-replace i none stopping s.threads h))
resume-Guarded i b (priority_locking hook) s h g =
    if-Guarded s.locked _ _ (λ _. g) (λ free. run_priority-Guarded i b hook s h free g)
resume-Guarded i b (priority_executing hook) s h g = omega (
  arith,
  finish-Guarded i b hook (priority_executing hook) s h refl g,
  running_hooks-replace i none (priority_executing hook) s.threads h,
)

step-Guarded : (input : Input) (s : Executor) → Guarded s → Guarded (step input s)
unfolding step running_hooks
step-Guarded call_start s g =
    if-Guarded s.running _ _ (λ _. g)
      (λ _. omega (arith, running_hooks-append s.threads (getting ∷ [])))
step-Guarded call_stop s g =
    if-Guarded s.running _ _ (λ _. omega (arith, running_hooks-append s.threads (stopping ∷ [])))
      (λ _. g)
step-Guarded (call_hook hook) s g = g
step-Guarded (call_priority hook) s g =
    omega (arith, running_hooks-append s.threads (priority_locking hook ∷ []))
step-Guarded (wake i b) s g = resumed (thread_at i s.threads) refl
  where
    resumed : (o : Option Thread) → thread_at i s.threads ≡ o → Guarded (resume_option i b o s)
    resumed none e = g
    resumed (some t) e = resume-Guarded i b t s e g

steps-Guarded : (inputs : List Input) (s : Executor) → Guarded s → Guarded (steps inputs s)
unfolding steps
steps-Guarded [] s g = g
steps-Guarded (input ∷ inputs) s g = steps-Guarded inputs (step input s) (step-Guarded input s g)

initial-Guarded : Guarded initial
unfolding initial running_hooks
initial-Guarded = refl

-- Whatever is called and however the threads interleave, at most one hook runs at a time, and the
-- lock is held exactly while one does.
pub steps-IsExclusive :
    (inputs : List Input)
    → (running_hooks (steps inputs initial).threads ≤ 1)
      × ((running_hooks (steps inputs initial).threads ≡ 1)
          ↔ ((steps inputs initial).locked ≡ true))
steps-IsExclusive inputs =
    let s = steps inputs initial in
    let g = steps-Guarded inputs initial initial-Guarded in exclusive s.threads s.locked g
  where
    exclusive :
        (threads : List Thread) (locked : Bool)
        → running_hooks threads ≡ held locked
        → (running_hooks threads ≤ 1) × ((running_hooks threads ≡ 1) ↔ (locked ≡ true))
    exclusive threads true g = (omega arith, (λ _. refl, λ _. g))
    exclusive threads false g = (omega arith, (λ h. absurd (omega arith), λ h. absurd (cc)))
