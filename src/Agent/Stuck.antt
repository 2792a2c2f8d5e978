-- ===== src/Agent/Stuck.antt =====
-- juju/agents/unit.py: two ways by which a unit cannot be resolved, and an upgrade that leaves the
-- executor running.
use trusted_juju.Prelude.{String, Bool, true, false, none, some, [], ◌≡◌, refl, str_eq, raise}
use trusted_juju.Prelude.Dict.{Dict, lookup, insert}
use trusted_juju.Workflow.Defs.{action_error, get_transition, get_transitions, collect, ids_of}
use trusted_juju.Workflow.Machine.{
  get_state, get_inflight, set_inflight, get_available_transitions, first_automatic,
  fire_automatic_transitions, with_alias, fire_transition, fire_transition_alias,
}
use trusted_juju.Workflow.Machine
use trusted_juju.Workflow.Unit.{unit_workflow}
use trusted_juju.Agent.UnitLifecycle.{
  charm_error, failure, assertion, never, Environment, UnitLifecycle, execute_hook, hooks_if,
  install, stop, prepare, replace, replace_if, upgrade_to, upgrade_charm,
}
use trusted_juju.Agent.UnitStates.{
  calls, unit_actions, UnitMachine, fire, preconditions_of, get_preconditions, set_running,
  prepare_world, synchronize, new_lifecycle, cb_watch_resolved, upgrade_between, upgrade_charms,
  cb_watch_upgrade_flag,
}

-- A unit at rest in a state.
abbrev pub unit_in : String → Dict String → UnitLifecycle → UnitMachine
unit_in s variables u = record {
  stored = some (record { state = some s; state_variables = variables; transition_id = none });
  world = u;
  observed = [];
}

-- The agent has been restarted.
abbrev pub restarted : Environment → Dict String → UnitLifecycle → UnitMachine
restarted env variables u = (synchronize env (unit_in "stop_error" variables (new_lifecycle u))).0

restarted-eq :
    (env : Environment) (variables : Dict String) (u : UnitLifecycle)
    → restarted env variables u
      ≡ unit_in "stop_error" variables (record (new_lifecycle u) { executor = true })
unfolding synchronize get_preconditions prepare_world set_running new_lifecycle get_state
    get_inflight fire_automatic_transitions get_available_transitions unit_workflow get_transitions
    get_transition collect ids_of lookup insert first_automatic Machine.synchronize
restarted-eq env variables u = refl

-- The stop of a lifecycle that does not run.
retried :
    (env : Environment) (retry_hooks : Bool) (variables : Dict String) (u : UnitLifecycle)
    → let m =
        cb_watch_resolved env
          (some retry_hooks)
          (unit_in "stop_error" variables (record (new_lifecycle u) { executor = true })) in
      (get_state m ≡ some "stop_error") × (m.world.raised ≡ some assertion)
unfolding cb_watch_resolved fire_transition_alias get_available_transitions unit_workflow
    get_transitions get_transition collect ids_of lookup insert with_alias fire_transition
    set_inflight get_state unit_actions calls stop new_lifecycle
retried env true variables u = (refl, refl)
retried env false variables u = (refl, refl)

-- A unit whose stop hook has failed cannot be resolved after its agent was restarted: its
-- synchronization leaves the lifecycle stopped, and retrying, with the hooks or without, fails the
-- assertion that it runs and leaves the unit in "stop_error".
pub resolved_after_restart_asserts :
    (env later : Environment) (retry_hooks : Bool) (variables : Dict String) (u : UnitLifecycle)
    → let m = cb_watch_resolved later (some retry_hooks) (restarted env variables u) in
      (get_state m ≡ some "stop_error") × (m.world.raised ≡ some assertion)
resolved_after_restart_asserts env later retry_hooks variables u =
    rw (restarted-eq env variables u) (retried later retry_hooks variables u)

module _ (env : Environment) (seen_id had_id new_id old_id : String)
    (noticed : str_eq seen_id had_id ≡ false) (announced : env.service_charm_id ≡ some new_id)
    (had : env.unit_charm_id ≡ some old_id) (differs : str_eq new_id old_id ≡ false)
    (loads : env.download ≡ true) (fails : env.extract ≡ false) where
  forced_world :
      (variables : Dict String) (u : UnitLifecycle)
      → cb_watch_upgrade_flag env
          (some seen_id)
          (some had_id)
          (some true)
          (unit_in "install_error" variables u)
        ≡ (
          unit_in "install_error" variables (record u {
            executor = false;
            charm_dir = none;
            raised = some (failure charm_error);
          }),
          raise action_error,
        )
  unfolding cb_watch_upgrade_flag upgrade_charms upgrade_between get_state upgrade_charm upgrade_to
      prepare replace_if replace
  forced_world variables u = rw (noticed, announced, had, differs, loads, fails) refl

waits :
    (later : Environment) (variables : Dict String) (u : UnitLifecycle)
    → let m =
        cb_watch_resolved later
          (some true)
          (unit_in "install_error" variables (record u { executor = false })) in
      (get_state m ≡ some "install_error") × (m.world.raised ≡ some never)
unfolding cb_watch_resolved fire_transition_alias get_available_transitions unit_workflow
    get_transitions get_transition collect ids_of lookup insert with_alias fire_transition
    set_inflight get_state unit_actions calls install hooks_if execute_hook
waits later variables u = (refl, refl)

-- Where a forced upgrade of a unit whose installation has failed, whose callback and preparation both
-- find another charm than the unit's, cannot replace the charm, the executor stays stopped, and retrying the installation with its hook waits for ever.
pub resolved_after_forced_upgrade_waits :
    (env later : Environment) (seen_id had_id new_id old_id : String) (variables : Dict String)
    (u : UnitLifecycle)
    → str_eq seen_id had_id ≡ false
    → env.service_charm_id ≡ some new_id
    → env.unit_charm_id ≡ some old_id
    → str_eq new_id old_id ≡ false
    → env.download ≡ true
    → env.extract ≡ false
    → let m =
        (cb_watch_upgrade_flag env
          (some seen_id)
          (some had_id)
          (some true)
          (unit_in "install_error" variables u)).0 in
      (m.world.executor ≡ false)
      × ((cb_watch_resolved later (some true) m).world.raised ≡ some never)
resolved_after_forced_upgrade_waits env later seen_id had_id new_id old_id variables u n a b c d e =
    rw (forced_world env seen_id had_id new_id old_id n a b c d e variables u) (
      refl,
      (waits later variables
          (record u { charm_dir = none; raised = some (failure charm_error) })).1,
    )

unprepared :
    (env : Environment) (u : UnitLifecycle)
    → prepare env ≡ none
    → upgrade_charm env true false u ≡ (u, some (failure charm_error))
unfolding upgrade_charm upgrade_to
unprepared env u fails = rw fails refl

-- An upgrade of a started unit, whose executor runs, that fails in its preparation leaves the unit in
-- "charm_upgrade_error" with the executor and the lifecycle running, although `_get_preconditions` says
-- of that state that the executor is stopped; and it invokes no hook and leaves the charm as it was.
pub failed_preparation_keeps_executor :
    (env : Environment) (variables : Dict String) (u : UnitLifecycle)
    → prepare env ≡ none
    → u.executor ≡ true
    → let m = (fire env "upgrade_charm" [] (unit_in "started" variables u)).0 in
      (get_state m ≡ some "charm_upgrade_error")
      × (get_preconditions m ≡ (false, true))
      × (m.world.executor ≡ true)
      × (m.world.running ≡ u.running)
      × (m.world.hooks ≡ u.hooks)
      × (m.world.charm_dir ≡ u.charm_dir)
unfolding fire fire_transition get_available_transitions unit_workflow get_transitions
    get_transition collect ids_of lookup insert set_inflight get_state get_inflight unit_actions
    calls get_preconditions preconditions_of Machine.complete Machine.update Machine.set_state
    fire_automatic_transitions first_automatic
failed_preparation_keeps_executor env variables u fails runs =
    rw (unprepared env u fails) (refl, refl, runs, refl, refl, refl)
