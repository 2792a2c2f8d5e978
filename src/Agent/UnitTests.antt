-- ===== src/Agent/UnitTests.antt =====
-- Runs of a unit's agent on small inputs, and the theorems about its unit at inputs that meet their
-- hypotheses.
use trusted_juju.Prelude.{true, false, none, some, [], ◌≡◌, refl, ap, str_eq, if◌then◌else◌, inl}
use trusted_juju.Prelude.Dict.{lookup, insert}
use trusted_juju.Workflow.Defs.{state_eq, get_transition, get_transitions, collect, ids_of}
use trusted_juju.Workflow.Machine.{get_state, get_inflight, get_available_transitions}
use trusted_juju.Workflow.Unit.{unit_workflow, relation_workflow}
use trusted_juju.Agent.RelationLifecycle.{watching, executing, new_lifecycle}
use trusted_juju.Agent.RelationStates.{expected}
use trusted_juju.Agent.Relations.{infos, has_unit_state, new_workflow}
use trusted_juju.Agent.UnitLifecycle.{
  charm_error, other, assertion, never, Environment, UnitLifecycle, prepare,
}
use trusted_juju.Agent.UnitStates.{
  UnitMachine, cb_watch_resolved, cb_watch_config_changed, cb_watch_upgrade_flag,
}
use trusted_juju.Agent.UnitStates
use trusted_juju.Agent.StartRuns.{IsSteady}
use trusted_juju.Agent.UnitContracts.{wanted, needed}
use trusted_juju.Agent.UnitStateLaws.{IsSafe, unit_synchronize-Agrees}
use trusted_juju.Agent.Callbacks.{IsKept, cb_watch_upgrade_flag-Kept}
use trusted_juju.Agent.Stuck.{
  unit_in, restarted, resolved_after_restart_asserts, resolved_after_forced_upgrade_waits,
  failed_preparation_keeps_executor,
}
use trusted_juju.Agent.Tests.{transitions_from, cluster, one_relation}

program : Unit {0}
unfolding get_transition get_transitions collect ids_of get_state get_inflight
    get_available_transitions relation_workflow unit_workflow lookup insert watching executing
    expected new_lifecycle has_unit_state new_workflow infos wanted needed
    UnitStates.preconditions_of UnitStates.get_preconditions prepare
program = tt

-- The stop hook and the start hook fail, and the charm cannot be replaced.
abbrev failing : Environment
failing = record {
  cluster = cluster;
  hook = λ name.
      if str_eq name "stop"
      then some charm_error
      else if str_eq name "start"
      then some other
      else none;
  watch = none;
  service_charm_id = some "cs:db-2";
  unit_charm_id = some "cs:db-1";
  download = true;
  extract = false;
  set_charm_id = true;
}

failing-IsSteady : IsSteady failing
unfolding program
failing-IsSteady = record { watch = inl refl; bundle = some "cs:db-2"; prepared = refl }

-- The new charm cannot be downloaded.
abbrev offline : Environment
offline = record failing { download = false }

abbrev resting : UnitLifecycle
resting = record {
  relations = one_relation;
  loaded = true;
  running = false;
  watching_relation_memberships = false;
  watching_relation_resolved = false;
  executor = true;
  hooks = [];
  charm_dir = some "cs:db-1";
  recorded = some "cs:db-1";
  raised = none;
}

abbrev running_unit : UnitMachine
running_unit = unit_in "started" [] (record resting { running = true })

abbrev installed : UnitMachine
installed = unit_in "installed" [] (UnitStates.new_lifecycle resting)

unit_synchronize-Agrees_example : IsSafe (UnitStates.synchronize failing installed)
unfolding program
unit_synchronize-Agrees_example =
    unit_synchronize-Agrees failing installed (transitions_from unit_workflow (some "installed"))
      failing-IsSteady refl refl (λ e. absurd (apart (ap (λ s. state_eq s (some "stop_error")) e)))
      (λ id e. absurd (cc))
  where
    apart : false ≡ true → ⊥
    apart p = cc

cb_watch_upgrade_flag-Kept_example :
    IsKept
      (cb_watch_upgrade_flag failing (some "cs:db-2") (some "cs:db-1") (some false) running_unit).0
unfolding program
cb_watch_upgrade_flag-Kept_example =
    cb_watch_upgrade_flag-Kept failing (some "cs:db-2") (some "cs:db-1") (some false) running_unit
      failing-IsSteady (λ e. refl) (refl, refl)

resolved_after_restart_asserts_example :
    let m = cb_watch_resolved failing (some true) (restarted failing [] resting) in
    (get_state m ≡ some "stop_error") × (m.world.raised ≡ some assertion)
unfolding program
resolved_after_restart_asserts_example =
    resolved_after_restart_asserts failing failing true [] resting

resolved_after_forced_upgrade_waits_example :
    let m =
      (cb_watch_upgrade_flag failing
        (some "cs:db-2")
        (some "cs:db-1")
        (some true)
        (unit_in "install_error" [] resting)).0 in
    (m.world.executor ≡ false)
    × ((cb_watch_resolved failing (some true) m).world.raised ≡ some never)
unfolding program
resolved_after_forced_upgrade_waits_example =
    resolved_after_forced_upgrade_waits failing failing "cs:db-2" "cs:db-1" "cs:db-2" "cs:db-1" []
      resting refl refl refl refl refl refl

failed_preparation_keeps_executor_example :
    let m = (UnitStates.fire offline "upgrade_charm" [] running_unit).0 in
    (get_state m ≡ some "charm_upgrade_error")
    × (UnitStates.get_preconditions m ≡ (false, true))
    × (m.world.executor ≡ true)
    × (m.world.running ≡ true)
    × (m.world.hooks ≡ [])
    × (m.world.charm_dir ≡ some "cs:db-1")
unfolding program
failed_preparation_keeps_executor_example =
    failed_preparation_keeps_executor offline [] (record resting { running = true }) refl refl
