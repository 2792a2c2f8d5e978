-- ===== src/Agent/Tests.antt =====
-- Runs of a unit's relations on small inputs, and the theorems about them at inputs that meet their
-- hypotheses.
use trusted_juju.Prelude.{
  String, true, false, Option, none, some, List, [], ◌∷◌, ◌≡◌, refl, subst, str_eq, ok, raise,
  Bool-cases, inl, inr,
}
use trusted_juju.Prelude.Dict.{lookup, insert, has_key}
use trusted_juju.Prelude.Sets.{contains}
use trusted_juju.Scheduler.State.{Scheduler}
use trusted_juju.Workflow.Defs.{
  State, Transition, Workflow, get_transition, get_transitions, collect, ids_of,
}
use trusted_juju.Workflow.Machine.{StateDict, get_state, get_inflight, get_available_transitions}
use trusted_juju.Workflow.Unit.{unit_workflow, relation_workflow}
use trusted_juju.Agent.RelationLifecycle.{Answers, watching, executing, new_lifecycle}
use trusted_juju.Agent.RelationStates.{RelationMachine, fire, expected, synchronize}
use trusted_juju.Agent.RelationLaws.{Settled, fire-Agrees, synchronize-Agrees}
use trusted_juju.Agent.Relations.{
  found, Cluster, ServiceRelation, RelationWorkflowState, Relations, infos, has_unit_state,
  new_workflow,
}
use trusted_juju.Agent.Memberships.{and_then, load_relations, process_service_changes}
use trusted_juju.Agent.MembershipSteps.{IsReliable, Runs}
use trusted_juju.Agent.MembershipLaws.{AllRun}
use trusted_juju.Agent.MembershipDicts.{idents}
use trusted_juju.Agent.Restarted.{process_service_changes-load}
use trusted_juju.Agent.Reconciled.{Reconciled, process_service_changes-Reconciled}
use trusted_juju.Agent.UnitLifecycle.{prepare}
use trusted_juju.Agent.UnitStates.{
  UnitMachine, cb_watch_resolved, cb_watch_config_changed, cb_watch_upgrade_flag,
}
use trusted_juju.Agent.UnitStates
use trusted_juju.Agent.UnitContracts.{wanted, needed}

program : Unit {0}
unfolding get_transition get_transitions collect ids_of get_state get_inflight
    get_available_transitions relation_workflow unit_workflow lookup insert watching executing
    expected new_lifecycle has_unit_state new_workflow infos wanted needed
    UnitStates.preconditions_of UnitStates.get_preconditions prepare
program = tt

abbrev pub transitions_from : Workflow → State → List Transition
transitions_from w s = elim (get_transitions s w) [ ok ts ↦ ts | raise e ↦ [] ]

abbrev pub good : Answers
good = record { executor = true; watch_related_units = true; watcher_start = true; broken = none }

abbrev pub busy : Scheduler
busy = record {
  running = true;
  context_members = none;
  member_versions = [];
  pending = [];
  waiting = true;
  executing = none;
  disk = none;
}

abbrev pub in_state : String → StateDict
in_state s = record { state = some s; state_variables = []; transition_id = none }

-- A relation whose hooks run.
abbrev pub up : RelationMachine
up = record {
  stored = some (in_state "up");
  world = record { scheduler = busy; watcher = some true; error_handler = true };
  observed = [];
}

fire-Agrees_example : Settled (fire good "error" [] up)
unfolding program
fire-Agrees_example =
    fire-Agrees good "error" [] up (transitions_from relation_workflow (some "up"))
      (record { executor_runs = refl; watch = refl; starts = refl }) refl refl (refl, refl)

-- The agent starts again, and the relation was in "error".
abbrev restarted_error : RelationMachine
restarted_error = record {
  stored = some (in_state "error");
  world = new_lifecycle busy;
  observed = [];
}

synchronize-Agrees_example : Settled (synchronize good restarted_error)
unfolding program
synchronize-Agrees_example =
    synchronize-Agrees good restarted_error (transitions_from relation_workflow (some "error"))
      (record { executor_runs = refl; watch = refl; starts = refl }) refl (λ id e. absurd (cc))

abbrev pub cluster : Cluster
cluster = record {
  answers = λ id. good;
  stored = λ id. none;
  scheduler = λ id. busy;
  get_unit_state = λ id. found;
  add_unit_state = λ id. true;
  get_relations_for_service = some [];
  is_subordinate = some false;
}

cluster-IsReliable : IsReliable cluster
unfolding program
cluster-IsReliable = record {
  responsive = λ id. record { executor_runs = refl; watch = refl; starts = refl };
  has_state = λ id. refl;
  resumes =
      λ id name ident scope. (transitions_from relation_workflow none, refl, λ i e. absurd (cc));
}

abbrev pub db : RelationWorkflowState
db = record {
  machine = up;
  relation_name = "db";
  relation_scope = "global";
  relation_ident = "db:0";
}

abbrev pub one_relation : Relations
one_relation = record {
  workflows = ("relation-0", db) ∷ [];
  known = some (infos (("relation-0", db) ∷ []));
  deployed = [];
  popped = [];
}

abbrev logging : ServiceRelation
logging = record {
  internal_relation_id = "relation-1";
  relation_ident = "logging:1";
  relation_name = "logging";
  relation_scope = "container";
}

one_relation-AllRun : AllRun one_relation
unfolding program
one_relation-AllRun id w e = elim (Bool-cases (str_eq "relation-0" id)) [
  | inl b ↦ subst Runs (some_eq db w (rw b at e)) (refl, refl)
  | inr b ↦ absurd (none_some w (rw b at e))
]
  where
    some_eq :
        (a b : RelationWorkflowState)
        → ◌≡◌ {A = Option RelationWorkflowState} (some a) (some b)
        → a ≡ b
    some_eq a b p = cc

    none_some :
        (a : RelationWorkflowState) → ◌≡◌ {A = Option RelationWorkflowState} none (some a) → ⊥
    none_some a p = cc

process_service_changes-Reconciled_example :
    Reconciled (logging ∷ []) (process_service_changes cluster (logging ∷ []) one_relation)
unfolding program
process_service_changes-Reconciled_example =
    process_service_changes-Reconciled cluster (logging ∷ []) one_relation false cluster-IsReliable
      refl one_relation-AllRun refl

-- While the agent was down, the relation that its file knows was broken, and another was added.
abbrev told : Cluster
told = record cluster { get_relations_for_service = some (logging ∷ []) }

process_service_changes-load_example :
    let p =
      and_then (load_relations told one_relation) (process_service_changes told (logging ∷ [])) in
    (p.1 ≡ true)
    × ((id : String) → has_key id p.0.workflows ≡ contains id (idents (logging ∷ [])))
    × AllRun p.0
unfolding program
process_service_changes-load_example =
    process_service_changes-load told (logging ∷ []) one_relation false
      (record {
        responsive = λ id. record { executor_runs = refl; watch = refl; starts = refl };
        has_state = λ id. refl;
        resumes = λ id name ident scope.
            (transitions_from relation_workflow none, refl, λ i e. absurd (cc));
      })
      refl refl
