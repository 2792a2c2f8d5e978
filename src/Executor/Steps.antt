-- ===== src/Executor/Steps.antt =====
-- juju/hooks/executor.py: `HookExecutor`. Its generators (the loop of `start`, `stop`,
-- `run_priority_hook`) are threads that stand at one of their `yield`s. An input is a call of the
-- executor, or resumes a thread. Which waiting thread gets a job or the lock is left open, so every
-- order that the queue and the lock allow is one of the sequences of inputs. The debugging of hooks
-- and the observer are not modelled, and a hook's path is looked up by the input that resumes.
use trusted_juju.Prelude.{
  ℕ, zero, suc, String, Bool, true, false, Option, none, some, List, [], ◌∷◌, ◌++◌, if◌then◌else◌,
}

-- What is queued: the invoker, the path and the deferred, which the number stands for.
pub record Hook : Type 0 where
  pub exec_deferred : ℕ
  pub path : String

pub data Job : Type 0 where
  stop_job : Job
  hook_job : Hook → Job

-- How a hook's deferred fires: `callback(False)`, `callback(True)` or `errback`.
pub data Fired : Type 0 where
  skipped succeeded failed : Fired

-- The loop of `start` waits for a job, for the lock, or for its hook; `stop` waits for the lock;
-- `run_priority_hook` waits for the lock, or for its hook.
pub data Thread : Type 0 where
  getting : Thread
  locking : Hook → Thread
  executing : Hook → Thread
  stopping : Thread
  priority_locking : Hook → Thread
  priority_executing : Hook → Thread

pub record Executor : Type 0 where
  pub running : Bool
  pub executions : List Job
  pub locked : Bool
  pub invoker : Option Hook
  pub fired : List (Hook × Fired)
  pub threads : List Thread

unfoldable pub initial : Executor
initial = record {
  running = false;
  executions = [];
  locked = false;
  invoker = none;
  fired = [];
  threads = [];
}

unfoldable pub thread_at : ℕ → List Thread → Option Thread
thread_at i [] = none
thread_at zero (t ∷ threads) = some t
thread_at (suc i) (t ∷ threads) = thread_at i threads

-- A thread goes on to its next wait, or ends.
unfoldable pub replace_at : ℕ → Option Thread → List Thread → List Thread
replace_at i o [] = []
replace_at zero none (t ∷ threads) = threads
replace_at zero (some t') (t ∷ threads) = t' ∷ threads
replace_at (suc i) o (t ∷ threads) = t ∷ replace_at i o threads

abbrev pub go_on : ℕ → Option Thread → Executor → Executor
go_on i o s = record s { threads = replace_at i o s.threads }

-- `while self._running: next = yield self._executions.get()`
unfoldable pub loop_head : ℕ → Executor → Executor
loop_head i s = go_on i (if s.running then some getting else none) s

-- The end of `_run_one`, and the release of the lock.
unfoldable pub finish : Bool → Hook → Executor → Executor
finish success hook s = record s {
  locked = false;
  invoker = none;
  fired = s.fired ++ (hook, if success then succeeded else failed) ∷ [];
}

-- `_run_one` up to its wait, with the lock.
unfoldable pub begin : Hook → Executor → Executor
begin hook s = record s { locked = true; invoker = some hook }

-- `_run_one` of a hook that does not exist: the lock is taken and released.
unfoldable pub skip : Hook → Executor → Executor
skip hook s = record s { fired = s.fired ++ (hook, skipped) ∷ [] }

unfoldable pub take_job : ℕ → List Job → Executor → Executor
take_job i [] s = s
take_job i (stop_job ∷ jobs) s = loop_head i (record s { executions = jobs })
take_job i (hook_job hook ∷ jobs) s = go_on i (some (locking hook)) (record s { executions = jobs })

-- The loop has the lock.
unfoldable pub run_next : ℕ → Bool → Hook → Executor → Executor
run_next i exists hook s =
    if s.running
    then (if exists
        then go_on i (some (executing hook)) (begin hook s)
        else loop_head i (skip hook s))
    else loop_head i s

-- `stop` has the lock.
unfoldable pub end_stop : ℕ → Executor → Executor
end_stop i s =
    go_on i none (record s { running = false; executions = s.executions ++ stop_job ∷ [] })

-- `run_priority_hook` has the lock: its assertion fails where the executor runs.
unfoldable pub run_priority : ℕ → Bool → Hook → Executor → Executor
run_priority i exists hook s =
    if s.running
    then go_on i none s
    else if exists
    then go_on i (some (priority_executing hook)) (begin hook s)
    else go_on i none (skip hook s)

-- A thread is resumed, where what it waits for is there. `b` says whether the hook's path exists,
-- and whether a hook that ends has succeeded.
unfoldable pub resume : ℕ → Bool → Thread → Executor → Executor
resume i b getting s = take_job i s.executions s
resume i b (locking hook) s = if s.locked then s else run_next i b hook s
resume i b (executing hook) s = loop_head i (finish b hook s)
resume i b stopping s = if s.locked then s else end_stop i s
resume i b (priority_locking hook) s = if s.locked then s else run_priority i b hook s
resume i b (priority_executing hook) s = go_on i none (finish b hook s)

abbrev pub resume_option : ℕ → Bool → Option Thread → Executor → Executor
resume_option i b none s = s
resume_option i b (some t) s = resume i b t s

pub data Input : Type 0 where
  call_start call_stop : Input
  call_hook call_priority : Hook → Input
  wake : ℕ → Bool → Input

-- `start` and `stop` fail their assertions and do nothing where the executor runs, or does not.
unfoldable pub step : Input → Executor → Executor
step call_start s =
    if s.running then s else record s { running = true; threads = s.threads ++ getting ∷ [] }
step call_stop s = if s.running then record s { threads = s.threads ++ stopping ∷ [] } else s
step (call_hook hook) s = record s { executions = s.executions ++ hook_job hook ∷ [] }
step (call_priority hook) s = record s { threads = s.threads ++ priority_locking hook ∷ [] }
step (wake i b) s = resume_option i b (thread_at i s.threads) s

unfoldable pub steps : List Input → Executor → Executor
steps [] s = s
steps (input ∷ inputs) s = steps inputs (step input s)

-- `get_invoker` and `get_hook_context`: the hook that runs, by which its client finds the context.
unfoldable pub get_invoker : Executor → Option Hook
get_invoker s = s.invoker
