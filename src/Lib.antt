-- ===== src/Lib.antt =====
-- juju (Python): the core of the service orchestration that its agents share. A topology map, kept
-- in ZooKeeper, names the machines, services, units and relations of an environment. A unit agent
-- watches the relations of its unit, feeds what it sees to one hook scheduler per relation, and runs
-- the charm's hooks one at a time. Workflows, kept on disk, say which state a unit and each of its
-- relations is in, and pick up where a process died.
--
-- Which file models what:
-- - juju/state/topology.py, `InternalTopology`: Topology/State.antt (the stored map, its version and
--   the guards `_assert_*`), Topology/Machine.antt, Service.antt, Relation.antt and Member.antt (the
--   operations on machines, services, relations and units, under their Python names; `Member` holds
--   the units, a service's `units`). Topology/Invariant.antt states when a map is well formed and
--   Topology/Keeps/ that each operation keeps it; Topology/History.antt runs any sequence of calls.
-- - juju/state/endpoint.py, and the searches of topology.py by endpoints: Topology/Endpoint.antt.
-- - juju/hooks/scheduler.py: Scheduler/Queue.antt (`_previous`, `_reduce`, `_queue_change` of
--   `HookQueue`), Scheduler/State.antt (`put`, `next_change`, `finished_change`, and the state file,
--   `run`, `stop` and `pop` of `HookScheduler`), Scheduler/Watch.antt (`cb_change_members`,
--   `cb_change_settings`). Scheduler/Presence.antt says what a sequence of hooks means to a charm.
-- - juju/hooks/executor.py, `HookExecutor`: Executor/Steps.antt. The generators of `start`, `stop` and
--   `run_priority_hook` are threads that stand at a `yield`; a list of inputs is one interleaving.
-- - juju/state/utils.py, `dict_merge`, `YAMLState` and `YAMLStateNodeMixin`: Settings/Buffer.antt. The
--   ZooKeeper node is an argument, and `==` of the values a parameter.
-- - juju/lib/statemachine.py: Workflow/Defs.antt (`Transition`, `Workflow`), Workflow/Machine.antt
--   (`WorkflowState`). juju/unit/workflow.py: Workflow/Unit.antt (`UnitWorkflow`, `RelationWorkflow`).
-- - juju/unit/lifecycle.py, `UnitRelationLifecycle`: Agent/RelationLifecycle.antt; `UnitLifecycle` and
--   `_CharmUpgradeOperation`: Agent/UnitLifecycle.antt, with the bookkeeping of the unit's relations in
--   Agent/Relations.antt (one workflow, the file of known relations) and Agent/Memberships.antt
--   (`_process_service_changes`, `_load_relations`).
-- - juju/unit/workflow.py: Agent/RelationStates.antt (`RelationWorkflowState`), Agent/UnitStates.antt
--   (`UnitWorkflowState`, and the callbacks of juju/agents/unit.py that drive it).
-- - Workflow/Contracts.antt, Table.antt and Safe.antt say what an action of a workflow owes by the way
--   it ends, and what follows for every transition; Agent/RelationContracts.antt and
--   Agent/UnitContracts.antt fill them in for the two workflows, entry by entry.
-- - juju/machine/constraints.py: Constraints/Defs.antt (`ConstraintSet`, `Constraints`); the converters
--   and comparers that a provider registers are fields, over a type of values that is a parameter.
-- - Prelude.antt and Prelude/ hold the shared tests, lists, dicts (Dict), sets (Sets), and the lemmas
--   on results (Raise). Files named Samples and Tests hold small inputs and runs on them.
--
-- How the code is modelled:
-- - A dict is an association list with a key once at most; Python's order of iteration is the order
--   of the list, and no theorem depends on it where the invariant of the map holds. A top-level key of
--   the topology that is absent is an empty dict: every reader gives it that default. In Python a
--   `setdefault` before a guard that raises can leave the empty dict behind, which reads the same.
-- - An operation that raises returns the exception; no topology operation changes the map before its
--   last guard, so the state is the old one.
-- - The scheduler's `run` is cut at its two `yield`s. It waits for a change, or for the hook that it
--   started; a hook is a process, so it ends in a later event. An exception that escapes from a
--   callback is a result, and the state that it leaves is not modelled. The hook and its context
--   (`_execute`) appear through the event that ends it, with whether it succeeded.
-- - The actions of a workflow (`do_<id>`) work on a world of their own, such as a lifecycle: each is
--   absent, returns, raises `TransitionError`, or ends the call by any other exception, the death of
--   the process included. Firing calls itself for error and automatic transitions, so it takes fuel;
--   in a workflow whose nested calls descend by a rank, more fuel than the rank is enough, and four
--   calls are enough for a service unit and one for a relation.
-- - A call of a lifecycle returns, or ends by a fault: an exception of a hook or a service, an
--   assertion that fails, or a hook that is queued for an executor that is stopped, which is waited for
--   without an end. How hooks end and what ZooKeeper answers is an argument of each call (`Environment`,
--   `Cluster`, `Answers`), so every combination of failures is covered. The executor is its running
--   flag there; Executor/Steps.antt has its loop. While it is stopped, a relation's broken hook is not
--   waited out, and neither is the run lock where a queued hook holds it (`is_blocked`, `then_depart`): such
--   a call does not return, and a call of the unit that awaits it ends by the fault `unfinished`. The first
--   invocations of the watches that a start establishes are calls of their own, and the first error or,
--   with the executor stopped, the first wait among them is an answer (`watch`).
-- - What a state of a unit wants (`wanted`) is what `_get_preconditions` says of it, but in "stop_error":
--   there the unit still runs, so that its stop can be retried.
-- - The table of migrations of the topology is empty, as in the source; its loop takes fuel for the rounds
--   after the first, and with no migration there is no such round (Topology/Version.antt).
-- - Numbers are natural numbers: sequence numbers, versions and indices are never negative here, and
--   Python's integers do not overflow.
--
-- What is not modelled: ZooKeeper, files, processes and networks; YAML itself (stored data are values);
-- the debugging of hooks and the executor's observer; a `retry_change` that raises; the user-oriented
-- unit names of topology.py and its disabled migration; the lock of `WorkflowState` (each call is made
-- with it held); the commands that hooks call, and their contexts; the start of a subordinate unit's
-- agent; log lines.
pub mod Prelude
pub mod Topology
pub mod Scheduler
pub mod Executor
pub mod Settings
pub mod Workflow
pub mod Agent
pub mod Constraints
