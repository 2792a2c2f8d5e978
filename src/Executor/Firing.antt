-- ===== src/Executor/Firing.antt =====
-- juju/hooks/executor.py: the deferred of a hook fires at most once.
use trusted_juju.Prelude.{
  ℕ, zero, suc, ◌+◌, ◌≤◌, Bool, true, false, Option, none, some, List, [], ◌∷◌, ◌++◌, ◌≡◌, refl,
  if◌then◌else◌, arith, ◌==◌, ap,
}
use trusted_juju.Executor.Steps.{
  Hook, Job, stop_job, hook_job, Thread, getting, locking, executing, stopping, priority_locking,
  priority_executing, Fired, skipped, succeeded, failed, Executor, initial, thread_at, replace_at,
  loop_head, finish, begin, skip, take_job, run_next, end_stop, run_priority, resume, resume_option,
  Input, call_start, call_stop, call_hook, call_priority, wake, step, steps,
}

module _ (n : ℕ) where
  -- 1 for a hook with the deferred n
  unfoldable pub one_of : Hook → ℕ
  one_of hook = if hook.exec_deferred == n then 1 else 0

  abbrev of_job : Job → ℕ
  of_job stop_job = 0
  of_job (hook_job hook) = one_of hook

  abbrev of_thread : Thread → ℕ
  of_thread getting = 0
  of_thread (locking hook) = one_of hook
  of_thread (executing hook) = one_of hook
  of_thread stopping = 0
  of_thread (priority_locking hook) = one_of hook
  of_thread (priority_executing hook) = one_of hook

  abbrev of_option : Option Thread → ℕ
  of_option none = 0
  of_option (some t) = of_thread t

  unfoldable in_jobs : List Job → ℕ
  in_jobs [] = 0
  in_jobs (job ∷ jobs) = of_job job + in_jobs jobs

  unfoldable in_threads : List Thread → ℕ
  in_threads [] = 0
  in_threads (t ∷ threads) = of_thread t + in_threads threads

  -- How often the deferred n has fired.
  unfoldable pub times_fired : List (Hook × Fired) → ℕ
  times_fired [] = 0
  times_fired ((hook, how) ∷ fired) = one_of hook + times_fired fired

  abbrev scheduled_by : Input → ℕ
  scheduled_by (call_hook hook) = one_of hook
  scheduled_by (call_priority hook) = one_of hook
  scheduled_by _ = 0

  -- How often a hook with the deferred n is scheduled.
  unfoldable pub times_scheduled : List Input → ℕ
  times_scheduled [] = 0
  times_scheduled (input ∷ inputs) = scheduled_by input + times_scheduled inputs

  in_jobs-append : (jobs more : List Job) → in_jobs (jobs ++ more) ≡ in_jobs jobs + in_jobs more
  unfolding in_jobs
  in_jobs-append [] more = omega arith
  in_jobs-append (job ∷ jobs) more = omega (arith, in_jobs-append jobs more)

  in_threads-append :
      (threads more : List Thread)
      → in_threads (threads ++ more) ≡ in_threads threads + in_threads more
  unfolding in_threads
  in_threads-append [] more = omega arith
  in_threads-append (t ∷ threads) more = omega (arith, in_threads-append threads more)

  times_fired-append :
      (fired more : List (Hook × Fired))
      → times_fired (fired ++ more) ≡ times_fired fired + times_fired more
  unfolding times_fired
  times_fired-append [] more = omega arith
  times_fired-append ((hook, how) ∷ fired) more = omega (arith, times_fired-append fired more)

  same_thread :
      {t u : Thread} → ◌≡◌ {A = Option Thread} (some u) (some t) → of_thread u ≡ of_thread t
  same_thread h = cc

  in_threads-replace :
      (i : ℕ) (o : Option Thread) (t : Thread) (threads : List Thread)
      → thread_at i threads ≡ some t
      → in_threads (replace_at i o threads) + of_thread t ≡ in_threads threads + of_option o
  unfolding in_threads replace_at thread_at
  in_threads-replace i o t [] h = absurd (ground arith)
  in_threads-replace zero none t (u ∷ threads) h = omega (arith, same_thread h)
  in_threads-replace zero (some t') t (u ∷ threads) h = omega (arith, same_thread h)
  in_threads-replace (suc i) o t (u ∷ threads) h = omega (arith, in_threads-replace i o t threads h)

  -- The copies of the hook that wait, run or have fired.
  abbrev copies : Executor → ℕ
  copies s = in_jobs s.executions + (in_threads s.threads + times_fired s.fired)

  if-copies :
      (c : ℕ) (b : Bool) (s1 s2 : Executor)
      → copies s1 ≤ c
      → copies s2 ≤ c
      → copies (if b then s1 else s2) ≤ c
  if-copies c true s1 s2 h1 h2 = h1
  if-copies c false s1 s2 h1 h2 = h2

  loop_head-copies :
      (i : ℕ) (t : Thread) (s : Executor) (c : ℕ)
      → thread_at i s.threads ≡ some t
      → copies s ≤ c + of_thread t
      → copies (loop_head i s) ≤ c
  unfolding loop_head
  loop_head-copies i t s c h le = looped s.running
    where
      looped :
          (b : Bool)
          → in_jobs s.executions
              + (in_threads (replace_at i (if b then some getting else none) s.threads)
                  + times_fired s.fired)
            ≤ c
      looped true = omega (arith, in_threads-replace i (some getting) t s.threads h)
      looped false = omega (arith, in_threads-replace i none t s.threads h)

  fire-copies :
      (hook : Hook) (how : Fired) (fired : List (Hook × Fired))
      → times_fired (fired ++ (hook, how) ∷ []) ≡ times_fired fired + one_of hook
  unfolding times_fired
  fire-copies hook how fired = omega (arith, times_fired-append fired ((hook, how) ∷ []))

  take_job-copies :
      (i : ℕ) (jobs : List Job) (s : Executor)
      → thread_at i s.threads ≡ some getting
      → s.executions ≡ jobs
      → copies (take_job i jobs s) ≤ copies s
  unfolding take_job in_jobs
  take_job-copies i [] s h e = omega arith
  take_job-copies i (stop_job ∷ jobs) s h e =
      loop_head-copies i getting (record s { executions = jobs }) (copies s) h
        (omega (arith, ap in_jobs e))
  take_job-copies i (hook_job hook ∷ jobs) s h e =
      omega (arith, ap in_jobs e, in_threads-replace i (some (locking hook)) getting s.threads h)

  run_next-copies :
      (i : ℕ) (b : Bool) (hook : Hook) (s : Executor)
      → thread_at i s.threads ≡ some (locking hook)
      → copies (run_next i b hook s) ≤ copies s
  unfolding run_next begin skip
  run_next-copies i b hook s h =
      if-copies (copies s) s.running _ _
        (if-copies (copies s) b _ _
          (omega (arith, in_threads-replace i (some (executing hook)) (locking hook) s.threads h))
          (loop_head-copies i (locking hook) (record s { fired = s.fired ++ (hook, skipped) ∷ [] })
            (copies s) h (omega (arith, fire-copies hook skipped s.fired))))
        (loop_head-copies i (locking hook) s (copies s) h (omega arith))

  run_priority-copies :
      (i : ℕ) (b : Bool) (hook : Hook) (s : Executor)
      → thread_at i s.threads ≡ some (priority_locking hook)
      → copies (run_priority i b hook s) ≤ copies s
  unfolding run_priority begin skip
  run_priority-copies i b hook s h =
      let t = priority_locking hook in
      let gone = in_threads-replace i none t s.threads h in
      let kept = in_threads-replace i (some (priority_executing hook)) t s.threads h in
      if-copies (copies s) s.running _ _ (omega (arith, gone)) (
        if-copies (copies s) b _ _ (omega (arith, kept))
          (omega (arith, gone, fire-copies hook skipped s.fired)))

  finish-copies :
      (b : Bool) (hook : Hook) (s : Executor) → copies (finish b hook s) ≡ copies s + one_of hook
  unfolding finish
  finish-copies b hook s = omega (arith, fire-copies hook (if b then succeeded else failed) s.fired)

  resume-copies :
      (i : ℕ) (b : Bool) (t : Thread) (s : Executor)
      → thread_at i s.threads ≡ some t
      → copies (resume i b t s) ≤ copies s
  unfolding resume end_stop finish in_jobs
  resume-copies i b getting s h = take_job-copies i s.executions s h refl
  resume-copies i b (locking hook) s h =
      if-copies (copies s) s.locked _ _ (omega arith) (run_next-copies i b hook s h)
  resume-copies i b (executing hook) s h =
      loop_head-copies i (executing hook) (finish b hook s) (copies s) h
        (omega (arith, finish-copies b hook s))
  resume-copies i b stopping s h = if-copies (copies s) s.locked _ _ (omega arith) (
      omega (
        arith,
        in_threads-replace i none stopping s.threads h,
        in_jobs-append s.executions (stop_job ∷ []),
      ))
  resume-copies i b (priority_locking hook) s h =
      if-copies (copies s) s.locked _ _ (omega arith) (run_priority-copies i b hook s h)
  resume-copies i b (priority_executing hook) s h = omega (
    arith,
    finish-copies b hook s,
    in_threads-replace i none (priority_executing hook) s.threads h,
  )

  step-copies :
      (input : Input) (s : Executor) → copies (step input s) ≤ copies s + scheduled_by input
  unfolding step in_threads in_jobs
  step-copies call_start s =
      if-copies (copies s + 0) s.running _ _ (omega arith)
        (omega (arith, in_threads-append s.threads (getting ∷ [])))
  step-copies call_stop s =
      if-copies (copies s + 0) s.running _ _
        (omega (arith, in_threads-append s.threads (stopping ∷ []))) (omega arith)
  step-copies (call_hook hook) s = omega (arith, in_jobs-append s.executions (hook_job hook ∷ []))
  step-copies (call_priority hook) s =
      omega (arith, in_threads-append s.threads (priority_locking hook ∷ []))
  step-copies (wake i b) s = resumed (thread_at i s.threads) refl
    where
      resumed :
          (o : Option Thread)
          → thread_at i s.threads ≡ o
          → copies (resume_option i b o s) ≤ copies s + 0
      resumed none e = omega arith
      resumed (some t) e = omega (arith, resume-copies i b t s e)

  steps-copies :
      (inputs : List Input) (s : Executor)
      → copies (steps inputs s) ≤ copies s + times_scheduled inputs
  unfolding steps times_scheduled
  steps-copies [] s = omega arith
  steps-copies (input ∷ inputs) s =
      omega (arith, step-copies input s, steps-copies inputs (step input s))

  initial-copies : copies initial ≡ 0
  unfolding initial in_jobs in_threads times_fired
  initial-copies = refl

-- However the threads interleave, the deferred of a hook fires at most as often as hooks with it are
-- scheduled.
pub times_fired-bound :
    (n : ℕ) (inputs : List Input)
    → times_fired n (steps inputs initial).fired ≤ times_scheduled n inputs
times_fired-bound n inputs = omega (arith, steps-copies n inputs initial, initial-copies n)
