-- ===== src/Executor/Tests.antt =====
-- Runs of the hook executor on small inputs, and the theorems about it at an input where the
-- executor is stopped and started again while a slow hook runs.
use trusted_juju.Prelude.{◌≤◌, ◌≡◌, ◌↔◌, refl, true, List, [], ◌∷◌, ◌++◌}
use trusted_juju.Executor.Steps.{
  Hook, executing, stopping, succeeded, initial, thread_at, replace_at, loop_head, finish, begin,
  skip, take_job, run_next, end_stop, run_priority, resume, Input, call_start, call_stop, call_hook,
  wake, step, steps,
}
use trusted_juju.Executor.Exclusion.{running_hooks, steps-IsExclusive}
use trusted_juju.Executor.Firing.{one_of, times_fired, times_scheduled, times_fired-bound}

abbrev install : Hook
install = record { exec_deferred = 0; path = "install" }

abbrev upgrade : Hook
upgrade = record { exec_deferred = 1; path = "upgrade-charm" }

program : Unit {0}
unfolding initial thread_at replace_at loop_head finish begin skip take_job run_next end_stop
    run_priority resume step steps running_hooks times_fired times_scheduled one_of
program = tt

-- The loop starts a hook; `stop` is called while it runs, and waits; another hook is queued.
abbrev slow : List Input
slow =
    call_start
    ∷ call_hook install
    ∷ wake 0 true
    ∷ wake 0 true
    ∷ call_stop
    ∷ call_hook upgrade
    ∷ wake 1 true
    ∷ []

slow_runs : (steps slow initial).threads ≡ executing install ∷ stopping ∷ []
unfolding program
slow_runs = refl

-- The hook ends, and `stop` stops the loop.
slow_stops :
    (steps (slow ++ wake 0 true ∷ wake 1 true ∷ []) initial).fired ≡ (install, succeeded) ∷ []
unfolding program
slow_stops = refl

steps-IsExclusive_example :
    (running_hooks (steps slow initial).threads ≤ 1)
    × ((running_hooks (steps slow initial).threads ≡ 1) ↔ ((steps slow initial).locked ≡ true))
steps-IsExclusive_example = steps-IsExclusive slow

times_fired-bound_example : times_fired 0 (steps slow initial).fired ≤ times_scheduled 0 slow
times_fired-bound_example = times_fired-bound 0 slow
