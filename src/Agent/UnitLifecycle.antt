-- ===== src/Agent/UnitLifecycle.antt =====
-- juju/unit/lifecycle.py, `UnitLifecycle`: the hooks of a unit, the executor that it shares with its
-- relations, and the upgrade of its charm. Each call has the run lock. How hooks end and what ZooKeeper
-- answers is an argument.
use trusted_juju.Prelude.{
  String, Bool, true, false, not, ◌&&◌, ◌||◌, Option, none, some, List, [], ◌∷◌, ◌++◌,
  if◌then◌else◌, str_eq,
}
use trusted_juju.Agent.Relations.{
  Cluster, ServiceRelation, Relations, RelationWorkflowState, move_to, each, bring_up,
  stop_lifecycle, process_relation_resolved_changes,
}
use trusted_juju.Agent.Memberships.{process_service_changes, load_relations}

-- The exceptions of hooks and services: those that `_invoke_lifecycle` knows, and any other.
pub data Failure : Type 0 where
  file_not_found : Failure
  charm_error : Failure
  other : Failure

-- Beside them an assertion fails, or a call awaits a hook that a stopped executor leaves in its queue.
-- A call on a relation that does not return while the executor is stopped is `unfinished`: it has raised,
-- or waits for such a hook.
pub data Fault : Type 0 where
  failure : Failure → Fault
  assertion : Fault
  never : Fault
  unfinished : Fault

pub record Environment : Type 0 where
  pub cluster : Cluster
  -- How the hook of a name ends.
  pub hook : String → Option Failure
  -- The first error of the initial invocations of the watches. While the executor is stopped it stands
  -- for one that waits, too.
  pub watch : Option Failure
  -- `get_charm_id` of the service and of the unit, asked by the preparation of an upgrade; `none` is an
  -- exception.
  pub service_charm_id : Option String
  pub unit_charm_id : Option String
  -- `download_charm`, `extract_to` and `set_charm_id` return.
  pub download : Bool
  pub extract : Bool
  pub set_charm_id : Bool

pub record UnitLifecycle : Type 0 where
  pub relations : Relations
  -- `_relations` is not `None`.
  pub loaded : Bool
  pub running : Bool
  pub watching_relation_memberships : Bool
  pub watching_relation_resolved : Bool
  -- The executor runs.
  pub executor : Bool
  -- The hooks that were invoked.
  pub hooks : List String
  -- The charm that was last put in place in full, and the one that was last recorded.
  pub charm_dir : Option String
  pub recorded : Option String
  -- The last exception that no transition handles.
  pub raised : Option Fault

abbrev pub Run : Type 0
Run = UnitLifecycle × Option Fault

abbrev pub then_run : Run → (UnitLifecycle → Run) → Run
then_run (u, none) next = next u
then_run (u, some f) next = (u, some f)

abbrev pub fault_of : Option Failure → Option Fault
fault_of none = none
fault_of (some f) = some (failure f)

unfoldable pub invoke : Environment → String → UnitLifecycle → Run
invoke env name u = (record u { hooks = u.hooks ++ name ∷ [] }, fault_of (env.hook name))

-- A priority hook wants the executor stopped, and any other waits until it runs.
unfoldable pub execute_hook : Environment → String → Bool → UnitLifecycle → Run
unfolding invoke
execute_hook env name now u =
    if now
    then (if u.executor then (u, some assertion) else invoke env name u)
    else (if u.executor then invoke env name u else (u, some never))

unfoldable pub hooks_if : Environment → Bool → List String → UnitLifecycle → Run
unfolding execute_hook
hooks_if env false names u = (u, none)
hooks_if env true [] u = (u, none)
hooks_if env true (name ∷ names) u =
    then_run (execute_hook env name false u) (λ u'. hooks_if env true names u')

unfoldable pub install : Environment → Bool → UnitLifecycle → Run
unfolding hooks_if
install env fire_hooks u = hooks_if env fire_hooks ("install" ∷ []) u

-- The executor is the one of the relations.
abbrev pub cluster_at : Environment → UnitLifecycle → Cluster
cluster_at env u = record env.cluster {
  answers = λ id. record (env.cluster.answers id) { executor = u.executor };
}

abbrev pub unreturned : UnitLifecycle → Failure → Fault
unreturned u f = if u.executor then failure f else unfinished

abbrev pub on_relations : UnitLifecycle → Relations × Bool → Run
on_relations u (r, true) = (record u { relations = r }, none)
on_relations u (r, false) = (record u { relations = r }, some (unreturned u other))

-- `_relations` is set before anything of the load can raise.
unfoldable pub load_if_none : Environment → UnitLifecycle → Run
load_if_none env u =
    if u.loaded
    then (u, none)
    else on_relations (record u { loaded = true }) (load_relations (cluster_at env u) u.relations)

unfoldable pub with_workflows :
    (String → RelationWorkflowState → RelationWorkflowState × Bool) → UnitLifecycle → Run
unfolding each
with_workflows f u =
    let done = each f u.relations.workflows in
    on_relations u (record u.relations { workflows = done.0 }, done.1)

abbrev pub watch_fault : UnitLifecycle → Option Failure → Option Fault
watch_fault u none = none
watch_fault u (some f) = some (unreturned u f)

-- The error of a watch is raised when the unit is running already.
unfoldable pub establish_watches : Environment → UnitLifecycle → Run
establish_watches env u =
    let established = u.watching_relation_memberships && u.watching_relation_resolved in
    (
      record u {
        watching_relation_memberships = true;
        watching_relation_resolved = true;
        running = true;
      },
      if established then none else watch_fault u env.watch,
    )

unfoldable pub workflows_if :
    Bool → (String → RelationWorkflowState → RelationWorkflowState × Bool) → UnitLifecycle → Run
unfolding with_workflows
workflows_if false f u = (u, none)
workflows_if true f u = with_workflows f u

unfoldable pub start : Environment → Bool → Bool → UnitLifecycle → Run
unfolding hooks_if load_if_none workflows_if establish_watches
start env fire_hooks start_relations u =
    then_run (hooks_if env fire_hooks ("config-changed" ∷ "start" ∷ []) u) (λ u1.
      then_run (load_if_none env u1) (λ u2.
        then_run (workflows_if start_relations (bring_up (cluster_at env u2)) u2)
          (λ u3. establish_watches env u3)))

-- Going "down", or, where the process ends, no more than stopping.
unfoldable pub take_down :
    Cluster → Bool → String → RelationWorkflowState → RelationWorkflowState × Bool
unfolding move_to
take_down c stop_relations id w =
    if stop_relations then move_to c (some "down") id w else stop_lifecycle c id w

unfoldable pub stop : Environment → Bool → Bool → UnitLifecycle → Run
unfolding with_workflows take_down hooks_if
stop env fire_hooks stop_relations u =
    if u.running
    then then_run (with_workflows (take_down (cluster_at env u) stop_relations) u) (λ u1.
      then_run (hooks_if env fire_hooks ("stop" ∷ []) u1)
        (λ u2. (record u2 { running = false }, none)))
    else (u, some assertion)

unfoldable pub configure : Environment → Bool → UnitLifecycle → Run
unfolding hooks_if
configure env fire_hooks u =
    if fire_hooks
    then (if u.running then hooks_if env true ("config-changed" ∷ []) u else (u, some assertion))
    else (u, none)

-- `_CharmUpgradeOperation.prepare`: the charm that is to replace another one, if any, or an exception.
unfoldable pub prepare : Environment → Option (Option String)
prepare env = elim (env.service_charm_id) [
  | none ↦ none
  | some new_id ↦ elim (env.unit_charm_id) [
    | none ↦ none
    | some old_id ↦
        if str_eq new_id old_id
        then some none
        else if env.download
        then some (some new_id)
        else none
  ]
]

-- `_CharmUpgradeOperation.run`
unfoldable pub replace : Environment → String → UnitLifecycle → Run
replace env new_id u =
    if not env.extract
    then (record u { charm_dir = none }, some (failure charm_error))
    else if not env.set_charm_id
    then (record u { charm_dir = some new_id }, some (failure charm_error))
    else (record u { charm_dir = some new_id; recorded = some new_id }, none)

unfoldable pub replace_if : Environment → Option String → UnitLifecycle → Run
unfolding replace
replace_if env none u = (u, none)
replace_if env (some new_id) u = replace env new_id u

unfoldable pub upgrade_hook : Environment → Bool → UnitLifecycle → Run
unfolding execute_hook
upgrade_hook env fires u = if fires then execute_hook env "upgrade-charm" true u else (u, none)

unfoldable pub start_executor : UnitLifecycle → Run
start_executor u = if u.executor then (u, some assertion) else (record u { executor = true }, none)

abbrev pub is_ready : Option String → Bool
is_ready none = false
is_ready (some new_id) = true

unfoldable pub upgrade_to : Environment → Bool → Bool → Option (Option String) → UnitLifecycle → Run
unfolding replace_if upgrade_hook start_executor
upgrade_to env fire_hooks force none u = (u, some (failure charm_error))
upgrade_to env fire_hooks force (some bundle) u =
    then_run (replace_if env bundle (record u { executor = false })) (λ u1.
      then_run (upgrade_hook env ((is_ready bundle || fire_hooks) && not force) u1)
        (λ u2. start_executor u2))

unfoldable pub upgrade_charm : Environment → Bool → Bool → UnitLifecycle → Run
unfolding prepare upgrade_to
upgrade_charm env fire_hooks force u = upgrade_to env fire_hooks force (prepare env) u

-- The watcher stops when the unit does not run.
unfoldable pub on_relation_resolved_changes :
    Environment → Bool → Option (List String) → UnitLifecycle → Run
unfolding process_relation_resolved_changes
on_relation_resolved_changes env connected resolved u =
    if u.running
    then (if connected
        then on_relations u
            (process_relation_resolved_changes (cluster_at env u) resolved u.relations)
        else (u, none))
    else (record u { watching_relation_resolved = false }, none)

unfoldable pub on_service_relation_changes :
    Environment → List ServiceRelation → UnitLifecycle → Run
unfolding process_service_changes
on_service_relation_changes env new_relations u =
    if u.running
    then on_relations u (process_service_changes (cluster_at env u) new_relations u.relations)
    else (record u { watching_relation_memberships = false }, none)
