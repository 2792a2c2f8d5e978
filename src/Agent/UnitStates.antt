-- ===== src/Agent/UnitStates.antt =====
-- juju/unit/workflow.py, `UnitWorkflowState`, and the callbacks of juju/agents/unit.py: the workflow of
-- a unit drives its lifecycle.
use trusted_juju.Prelude.{
  String, Bool, true, false, not, Option, none, some, [], if◌then◌else◌, str_eq, ok, raise,
}
use trusted_juju.Prelude.Dict.{Dict}
use trusted_juju.Workflow.Defs.{State, action_error, state_eq}
use trusted_juju.Workflow.Machine.{
  Outcome, no_action, returned, failed, crashed, Actions, Machine, Answer, get_state, get_inflight,
  fire_transition, fire_transition_alias,
}
use trusted_juju.Workflow.Machine
use trusted_juju.Workflow.Unit.{unit_workflow}
use trusted_juju.Agent.UnitLifecycle.{
  file_not_found, charm_error, other, failure, assertion, never, unfinished, Environment,
  UnitLifecycle, Run, then_run, install, start, stop, configure, upgrade_charm,
}

-- `_invoke_lifecycle`: "except (FileNotFound, CharmError)" raises `TransitionError`.
abbrev pub invoke_lifecycle : Run → Outcome × UnitLifecycle
invoke_lifecycle (u, none) = (returned none, u)
invoke_lifecycle (u, some (failure file_not_found)) = (failed, u)
invoke_lifecycle (u, some (failure charm_error)) = (failed, u)
invoke_lifecycle (u, some (failure other)) = (crashed, record u { raised = some (failure other) })
invoke_lifecycle (u, some assertion) = (crashed, record u { raised = some assertion })
invoke_lifecycle (u, some never) = (crashed, record u { raised = some never })
invoke_lifecycle (u, some unfinished) = (crashed, record u { raised = some unfinished })

-- The calls of a transition, where it has any.
unfoldable pub calls : Environment → String → UnitLifecycle → Option Run
calls env id u =
    if str_eq id "install"
    then some (install env true u)
    else if str_eq id "retry_install"
    then some (install env false u)
    else if str_eq id "retry_install_hook"
    then some (install env true u)
    else if str_eq id "start"
    then some (start env true true u)
    else if str_eq id "retry_start"
    then some (start env false true u)
    else if str_eq id "retry_start_hook"
    then some (start env true true u)
    else if str_eq id "stop"
    then some (stop env true true u)
    else if str_eq id "retry_stop"
    then some (stop env false true u)
    else if str_eq id "retry_stop_hook"
    then some (stop env true true u)
    else if str_eq id "upgrade_charm"
    then some (upgrade_charm env true false u)
    else if str_eq id "retry_upgrade_charm"
    then some (upgrade_charm env false false u)
    else if str_eq id "retry_upgrade_charm_hook"
    then some (upgrade_charm env true false u)
    else if str_eq id "error_configure"
    then some (stop env false true u)
    else if str_eq id "configure"
    then some (configure env true u)
    else if str_eq id "error_retry_configure"
    then some (stop env false true u)
    else if str_eq id "retry_configure"
    then some (then_run (start env false true u) (λ u'. configure env false u'))
    else if str_eq id "retry_configure_hook"
    then some (then_run (start env false true u) (λ u'. configure env true u'))
    else none

abbrev pub outcome_of : UnitLifecycle → Option Run → Outcome × UnitLifecycle
outcome_of u none = (no_action, u)
outcome_of u (some r) = invoke_lifecycle r

-- `do_<id>`
unfoldable pub unit_actions : Environment → Actions UnitLifecycle
unfolding calls
unit_actions env u id = outcome_of u (calls env id u)

abbrev pub UnitMachine : Type 0
UnitMachine = Machine UnitLifecycle

-- The longest chain: an installation that is retried, the start after it, and the start's error.
unfoldable pub fire : Environment → String → Dict String → UnitMachine → Answer UnitLifecycle
fire env = fire_transition unit_workflow (unit_actions env) 4

-- `_get_preconditions`, of a state and the transition in flight: (run_executor, run_lifecycle)
unfoldable pub preconditions_of : State → State → Bool × Bool
preconditions_of state inflight =
    if state_eq state (some "charm_upgrade_error")
    then (false, true)
    else if state_eq state (some "started")
    then (if state_eq inflight (some "upgrade_charm") then (false, true) else (true, true))
    else (true, false)

unfoldable pub get_preconditions : UnitMachine → Bool × Bool
unfolding preconditions_of
get_preconditions m = preconditions_of (get_state m) (get_inflight m)

unfoldable pub set_running : Environment → Bool → UnitLifecycle → Run
set_running env run_lifecycle u =
    if run_lifecycle
    then (if not u.running then start env false false u else (u, none))
    else (if u.running then stop env false true u else (u, none))

-- The executor is started or stopped, and then the lifecycle.
unfoldable pub prepare_world : Environment → Bool × Bool → UnitLifecycle → Run
unfolding set_running
prepare_world env (run_executor, run_lifecycle) u =
    set_running env run_lifecycle (record u { executor = run_executor })

abbrev pub then_synchronize : Environment → Run → UnitMachine → Answer UnitLifecycle
then_synchronize env (u, none) m =
    Machine.synchronize unit_workflow (unit_actions env) 4 (record m { world = u })
then_synchronize env (u, some f) m =
    (record m { world = record u { raised = some f } }, raise action_error)

unfoldable pub synchronize : Environment → UnitMachine → Answer UnitLifecycle
unfolding get_preconditions prepare_world
synchronize env m = then_synchronize env (prepare_world env (get_preconditions m) m.world) m

-- Of an agent that has started the lifecycle does not run yet, and knows no relation.
unfoldable pub new_lifecycle : UnitLifecycle → UnitLifecycle
new_lifecycle u = record u {
  loaded = false;
  running = false;
  watching_relation_memberships = false;
  watching_relation_resolved = false;
  executor = false;
  hooks = [];
  raised = none;
}

-- `UnitAgent.stop`
unfoldable pub stop_agent : Environment → UnitLifecycle → Run
stop_agent env u =
    then_run (if u.running then stop env false false u else (u, none))
      (λ u'. if u'.executor then (record u' { executor = false }, none) else (u', some assertion))

-- `cb_watch_resolved`: whether the hooks are to be retried, where the unit is resolved. Any exception
-- is logged.
unfoldable pub cb_watch_resolved : Environment → Option Bool → UnitMachine → UnitMachine
cb_watch_resolved env resolved m = elim resolved [
  | none ↦ m
  | some retry_hooks ↦
      if state_eq (get_state m) (some "started")
      then m
      else (fire_transition_alias unit_workflow (unit_actions env) 4
          (if retry_hooks then "retry_hook" else "retry") m).0
]

unfoldable pub cb_watch_config_changed : Environment → UnitMachine → Answer UnitLifecycle
unfolding fire
cb_watch_config_changed env m =
    if not (state_eq (get_state m) (some "started"))
    then (m, ok false)
    else fire env "configure" [] m

abbrev pub forced : UnitMachine → Run → Answer UnitLifecycle
forced m (u, none) = (record m { world = u }, ok true)
forced m (u, some f) = (record m { world = record u { raised = some f } }, raise action_error)

unfoldable pub upgrade_between :
    Environment → Bool → String → String → UnitMachine → Answer UnitLifecycle
unfolding fire
upgrade_between env force new_id old_id m =
    if str_eq new_id old_id
    then (m, ok false)
    else if not (state_eq (get_state m) (some "started"))
    then (if force then forced m (upgrade_charm env false true m.world) else (m, ok false))
    else fire env "upgrade_charm" [] m

unfoldable pub upgrade_charms :
    Environment → Bool → Option String → Option String → UnitMachine → Answer UnitLifecycle
unfolding upgrade_between
upgrade_charms env force none old_id m = (m, raise action_error)
upgrade_charms env force (some new_id) none m = (m, raise action_error)
upgrade_charms env force (some new_id) (some old_id) m = upgrade_between env force new_id old_id m

-- The flag, where there is one, is whether the upgrade is forced. The ids are what `get_charm_id` of the
-- service and of the unit answer the callback; the preparation of the upgrade asks again. What is
-- returned is whether an upgrade was made.
unfoldable pub cb_watch_upgrade_flag :
    Environment → Option String → Option String → Option Bool → UnitMachine → Answer UnitLifecycle
unfolding upgrade_charms
cb_watch_upgrade_flag env service_id unit_id none m = (m, ok false)
cb_watch_upgrade_flag env service_id unit_id (some force) m =
    upgrade_charms env force service_id unit_id m
