-- ===== src/Agent/RelationLifecycle.antt =====
-- juju/unit/lifecycle.py, `UnitRelationLifecycle`: the watcher of a relation's units and the
-- scheduler of its hooks. Its calls are serialized by its run lock. What ZooKeeper and the hook of a
-- broken relation answer is an argument.
use trusted_juju.Prelude.{
  String, Bool, true, false, not, ◌&&◌, Option, none, some, if◌then◌else◌, ok, raise,
}
use trusted_juju.Scheduler.State.{Scheduler}
use trusted_juju.Scheduler.State

pub record Answers : Type 0 where
  -- The executor of the unit runs. A hook that is queued while it is stopped is waited for without an
  -- end.
  pub executor : Bool
  -- `watch_related_units` returns a watcher, or raises.
  pub watch_related_units : Bool
  -- The watcher's `start` returns. (It is marked as running in either case.)
  pub watcher_start : Bool
  -- The error of the relation-broken hook, if it fails.
  pub broken : Option String

pub record RelationLifecycle : Type 0 where
  pub scheduler : Scheduler
  -- The watcher, once there is one, and whether it runs.
  pub watcher : Option Bool
  -- The workflow's `on_hook_error` is set as the error handler.
  pub error_handler : Bool

-- `__init__`, and the workflow that sets its handler. The scheduler reads its state file.
unfoldable pub new_lifecycle : Scheduler → RelationLifecycle
new_lifecycle scheduler = record { scheduler = scheduler; watcher = none; error_handler = true }

unfoldable pub watching : RelationLifecycle → Bool
watching l = elim (l.watcher) [ none ↦ false | some running ↦ running ]

unfoldable pub executing : RelationLifecycle → Bool
executing l = l.scheduler.running

-- `self._scheduler.run()`: a failure goes to a deferred that is dropped, and `_running` is set by
-- then.
unfoldable pub run_scheduler : Scheduler → Scheduler
run_scheduler s = elim (State.start s) [ ok s' ↦ s' | raise e ↦ record s { running = true } ]

-- "Start the hook execution scheduler."
unfoldable pub start_hooks : Bool → RelationLifecycle → RelationLifecycle
start_hooks start_scheduler l =
    if start_scheduler && not (executing l)
    then record l { scheduler = run_scheduler l.scheduler }
    else l

-- "And start the watcher."
unfoldable pub start_watcher : Answers → Bool → RelationLifecycle → RelationLifecycle × Bool
start_watcher answers start_watches l =
    if start_watches && not (watching l)
    then (record l { watcher = some true }, answers.watcher_start)
    else (l, true)

-- "Create a watcher if we don't have one yet."
unfoldable pub with_watcher : Answers → Bool → RelationLifecycle → RelationLifecycle × Bool
with_watcher answers start_watches l = elim (l.watcher) [
  | none ↦
      if answers.watch_related_units
      then start_watcher answers start_watches (record l { watcher = some false })
      else (l, false)
  | some running ↦ start_watcher answers start_watches l
]

-- The run lock is held by a hook that is queued for an executor that is stopped. (While the executor
-- runs, a hook ends and lets go of the lock.)
unfoldable pub is_blocked : Answers → RelationLifecycle → Bool
is_blocked answers l =
    not answers.executor && elim (l.scheduler.executing) [ none ↦ false | some change ↦ true ]

-- The lifecycle that is left, and whether the call returns.
unfoldable pub start : Answers → Bool → Bool → RelationLifecycle → RelationLifecycle × Bool
start answers start_watches start_scheduler l =
    if is_blocked answers l
    then (l, false)
    else with_watcher answers start_watches (start_hooks start_scheduler l)

-- `stop`, once it has the run lock.
unfoldable pub halt : Bool → RelationLifecycle → RelationLifecycle
halt stop_watches l = record l {
  watcher = if stop_watches && watching l then some false else l.watcher;
  scheduler = State.stop l.scheduler;
}

unfoldable pub stop : Answers → Bool → RelationLifecycle → RelationLifecycle × Bool
unfolding halt
stop answers stop_watches l =
    if is_blocked answers l then (l, false) else (halt stop_watches l, true)
