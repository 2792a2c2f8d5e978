-- ===== src/Agent/UnitStateLaws.antt =====
-- juju/unit/workflow.py, `UnitWorkflowState`, and the callbacks of juju/agents/unit.py: the executor and
-- the lifecycle run as the stored state wants.
use trusted_juju.Prelude.{
  String, true, false, none, some, List, [], ◌≡◌, ◌≢◌, refl, ap, ok, raise, str_eq,
}
use trusted_juju.Prelude.Dict.{Dict, lookup, insert}
use trusted_juju.Workflow.Defs.{
  Transition, get_transition, get_transitions, has_id, collect, ids_of,
}
use trusted_juju.Workflow.Machine.{Answer, get_state, get_inflight, get_available_transitions}
use trusted_juju.Workflow.Unit.{unit_workflow}
use trusted_juju.Workflow.UnitLaws.{unit_rank, unit_rank-lt, unit-IsSound}
use trusted_juju.Workflow.Safe.{Safe, fire_transition-Safe, synchronize-Safe}
use trusted_juju.Agent.UnitLifecycle.{
  failure, assertion, never, unfinished, Environment, UnitLifecycle, Run,
}
use trusted_juju.Agent.UnitStates.{
  unit_actions, UnitMachine, fire, get_preconditions, prepare_world, then_synchronize, synchronize,
}
use trusted_juju.Agent.UnitRuns.{Wants, RunOwes}
use trusted_juju.Agent.StartRuns.{IsSteady}
use trusted_juju.Agent.UnitContracts.{Agrees, Needs, IsForeign, unit-Honours}
use trusted_juju.Agent.UnitPreconditions.{prepare_world-Owes, prepared-Agrees, agreed-Needs}

-- The call has returned where the executor and the lifecycle run as the state wants, or an exception
-- of a hook or a service has ended it.
abbrev pub IsSafe : Answer UnitLifecycle → Type 0
IsSafe = Safe Agrees IsForeign

pub unit_fire-Agrees :
    (env : Environment) (id : String) (v : Dict String) (m : UnitMachine) (ts : List Transition)
    → IsSteady env
    → get_available_transitions unit_workflow m ≡ ok ts
    → has_id id ts ≡ true
    → Needs id (get_state m) m.world
    → IsSafe (fire env id v m)
unfolding fire
unit_fire-Agrees env id v m ts steady a b h =
    fire_transition-Safe unit_workflow unit_rank unit-IsSound (unit_actions env) Agrees Needs
      IsForeign (unit-Honours env steady) 4 id v m ts a b (unit_rank-lt id) h

then_synchronize-Safe :
    (env : Environment) (m : UnitMachine) (ts : List Transition) (bad : Wants) (r : Run)
    → IsSteady env
    → (get_preconditions m).0 ≡ true
    → get_available_transitions unit_workflow m ≡ ok ts
    → get_state m ≢ some "stop_error"
    → ((id : String)
        → get_inflight m ≡ some id
        → (has_id id ts ≡ true)
          × (str_eq id "upgrade_charm_error" ≡ false)
          × (str_eq id "error_retry_configure" ≡ false))
    → RunOwes (some (get_preconditions m).0, some (get_preconditions m).1) bad r
    → IsSafe (then_synchronize env r m)
unfolding get_available_transitions get_state get_inflight
then_synchronize-Safe env m ts bad (u, none) steady executor a h flight meets =
    synchronize-Safe unit_workflow unit_rank unit-IsSound (unit_actions env) Agrees Needs IsForeign
      (unit-Honours env steady) 4 (record m { world = u }) ts a unit_rank-lt
      (λ e. prepared-Agrees m u h executor meets)
      (λ id e.
        let (among, upgrade, rare) = flight id e in
        (
          among,
          agreed-Needs id (get_state m) u upgrade rare (prepared-Agrees m u h executor meets),
        ))
then_synchronize-Safe env m ts bad (u, some (failure f)) steady executor a h flight meets =
    (refl, (f, refl))
then_synchronize-Safe env m ts bad (u, some assertion) steady executor a h flight meets =
    absurd (cc)
then_synchronize-Safe env m ts bad (u, some never) steady executor a h flight meets = absurd (cc)
then_synchronize-Safe env m ts bad (u, some unfinished) steady executor a h flight meets =
    absurd (cc)

-- When the agent of a unit starts, whatever runs by then, the synchronization of its workflow returns
-- and leaves the executor and the lifecycle running as `_get_preconditions` says of the state that it
-- ends in (in "stop_error": both running), or it ends by an exception of a hook or a service. The
-- conditions: the preparation of an upgrade succeeds; the first invocations of the watches raise
-- neither `FileNotFound` nor `CharmError`; `_get_preconditions` wants the executor to run, so the state
-- is not "charm_upgrade_error" and no upgrade of a started unit is in flight; the stored state is one
-- of the workflow other than "stop_error"; and a transition in flight is one of that state other than
-- "upgrade_charm_error" and "error_retry_configure".
pub unit_synchronize-Agrees :
    (env : Environment) (m : UnitMachine) (ts : List Transition)
    → IsSteady env
    → (get_preconditions m).0 ≡ true
    → get_available_transitions unit_workflow m ≡ ok ts
    → get_state m ≢ some "stop_error"
    → ((id : String)
        → get_inflight m ≡ some id
        → (has_id id ts ≡ true)
          × (str_eq id "upgrade_charm_error" ≡ false)
          × (str_eq id "error_retry_configure" ≡ false))
    → IsSafe (synchronize env m)
unfolding synchronize
unit_synchronize-Agrees env m ts steady executor a h flight =
    then_synchronize-Safe env m ts (some true, none)
      (prepare_world env (get_preconditions m) m.world) steady executor a h flight
      (prepare_world-Owes env (get_preconditions m) m.world steady executor)

abbrev pub started_transitions : List Transition
unfolding get_transitions unit_workflow collect ids_of lookup insert get_transition
started_transitions = elim (get_transitions (some "started") unit_workflow) [
  | ok ts ↦ ts
  | raise e ↦ []
]

pub available_started :
    (m : UnitMachine)
    → get_state m ≡ some "started"
    → get_available_transitions unit_workflow m ≡ ok started_transitions
unfolding get_available_transitions get_transitions unit_workflow collect ids_of lookup insert
    get_transition
available_started m h = ap (λ s. get_transitions s unit_workflow) h

pub configure_among : has_id "configure" started_transitions ≡ true
unfolding started_transitions get_transitions unit_workflow collect ids_of lookup insert
    get_transition
configure_among = refl

pub upgrade_among : has_id "upgrade_charm" started_transitions ≡ true
unfolding started_transitions get_transitions unit_workflow collect ids_of lookup insert
    get_transition
upgrade_among = refl
