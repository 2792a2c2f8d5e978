-- ===== src/Agent/Relations.antt =====
-- juju/unit/lifecycle.py, `UnitLifecycle`: the workflows of the unit's relations, and the file that
-- knows them when the agent has been down. What ZooKeeper answers, and what the other files of the
-- agent hold, is an argument.
use trusted_juju.Prelude.{
  String, Bool, true, false, not, ◌&&◌, Option, none, some, List, [], ◌∷◌, if◌then◌else◌, ok, raise,
}
use trusted_juju.Prelude.Dict.{Dict, insert}
use trusted_juju.Prelude.Sets.{contains}
use trusted_juju.Scheduler.State.{Scheduler}
use trusted_juju.Workflow.Defs.{State, state_eq}
use trusted_juju.Workflow.Machine.{StateDict, Answer, get_state}
use trusted_juju.Agent.RelationLifecycle.{Answers, RelationLifecycle, new_lifecycle, stop}
use trusted_juju.Agent.RelationStates.{RelationMachine, transition_state, synchronize}

pub record ServiceRelation : Type 0 where
  pub internal_relation_id : String
  pub relation_ident : String
  pub relation_name : String
  pub relation_scope : String

-- `get_relation_info`, under the id of the relation.
pub record RelationInfo : Type 0 where
  pub relation_name : String
  pub relation_scope : String

pub record RelationWorkflowState : Type 0 where
  pub machine : RelationMachine
  pub relation_name : String
  pub relation_scope : String
  -- What the hooks of the relation are told.
  pub relation_ident : String

-- `get_unit_state`: "This unit has not yet been assigned a unit relation state" is `missing`.
pub data UnitStateAnswer : Type 0 where
  found : UnitStateAnswer
  missing : UnitStateAnswer
  refused : UnitStateAnswer

-- An answer of `none` is an exception.
pub record Cluster : Type 0 where
  -- Of the relation's own lifecycle.
  pub answers : String → Answers
  -- The state files of a relation.
  pub stored : String → Option StateDict
  pub scheduler : String → Scheduler
  pub get_unit_state : String → UnitStateAnswer
  -- `add_unit_state` returns.
  pub add_unit_state : String → Bool
  pub get_relations_for_service : Option (List ServiceRelation)
  pub is_subordinate : Option Bool

pub record Relations : Type 0 where
  -- `_relations`, and `{}` before it is loaded.
  pub workflows : Dict RelationWorkflowState
  -- The file of known relations.
  pub known : Option (Dict RelationInfo)
  -- The relations for which the deployment of a subordinate unit was begun.
  pub deployed : List String
  -- The workflows that were popped, as they were left.
  pub popped : Dict RelationWorkflowState

-- A call on a workflow, and whether it returns. (It raises, or waits for a stopped executor.)
abbrev pub with_answer :
    RelationWorkflowState → Answer RelationLifecycle → RelationWorkflowState × Bool
with_answer w (m, ok b) = (record w { machine = m }, true)
with_answer w (m, raise e) = (record w { machine = m }, false)

unfoldable pub move_to :
    Cluster → State → String → RelationWorkflowState → RelationWorkflowState × Bool
move_to c s id w = with_answer w (transition_state (c.answers id) s w.machine)

-- A loop over the workflows, which an exception ends.
abbrev pub then_others :
    String
    → RelationWorkflowState × Bool
    → Dict RelationWorkflowState × Bool
    → Dict RelationWorkflowState
    → Dict RelationWorkflowState × Bool
then_others id (w, true) (others, b) more = ((id, w) ∷ others, b)
then_others id (w, false) others more = ((id, w) ∷ more, false)

unfoldable pub each :
    (String → RelationWorkflowState → RelationWorkflowState × Bool)
    → Dict RelationWorkflowState
    → Dict RelationWorkflowState × Bool
each f [] = ([], true)
each f ((id, w) ∷ more) = then_others id (f id w) (each f more) more

-- "transition from "down" to "up" where applicable"
unfoldable pub bring_up : Cluster → String → RelationWorkflowState → RelationWorkflowState × Bool
unfolding move_to
bring_up c id w =
    if state_eq (get_state w.machine) (some "down") then move_to c (some "up") id w else (w, true)

abbrev pub with_lifecycle :
    RelationWorkflowState → RelationLifecycle × Bool → RelationWorkflowState × Bool
with_lifecycle w (l, returns) = (record w { machine = record w.machine { world = l } }, returns)

unfoldable pub stop_lifecycle :
    Cluster → String → RelationWorkflowState → RelationWorkflowState × Bool
stop_lifecycle c id w = with_lifecycle w (stop (c.answers id) true w.machine.world)

-- `_process_relation_resolved_changes`, for one workflow.
unfoldable pub resolve :
    Cluster → List String → String → RelationWorkflowState → RelationWorkflowState × Bool
unfolding move_to
resolve c resolved id w =
    if contains id resolved && not (state_eq (get_state w.machine) (some "up"))
    then move_to c (some "up") id w
    else (w, true)

-- `get_relation_resolved`, which is cleared when there is one.
unfoldable pub process_relation_resolved_changes :
    Cluster → Option (List String) → Relations → Relations × Bool
unfolding each resolve
process_relation_resolved_changes c resolved r = elim resolved [
  | none ↦ (r, true)
  | some ids ↦
      let done = each (resolve c ids) r.workflows in (record r { workflows = done.0 }, done.1)
]

unfoldable pub get_relation_info : RelationWorkflowState → RelationInfo
get_relation_info w = record { relation_name = w.relation_name; relation_scope = w.relation_scope }

unfoldable pub infos : Dict RelationWorkflowState → Dict RelationInfo
unfolding get_relation_info
infos [] = []
infos ((id, w) ∷ more) = (id, get_relation_info w) ∷ infos more

unfoldable pub store_relations : Relations → Relations
unfolding infos
store_relations r = record r { known = some (infos r.workflows) }

-- The unit has a state in the relation, or is given one.
unfoldable pub has_unit_state : Cluster → String → Bool
has_unit_state c id = elim (c.get_unit_state id) [
  | found ↦ true
  | missing ↦ c.add_unit_state id
  | refused ↦ false
]

-- `UnitRelationLifecycle(…)` and `RelationWorkflowState(…)`
unfoldable pub new_workflow : Cluster → String → String → String → String → RelationWorkflowState
new_workflow c id name ident scope = record {
  machine = record { stored = c.stored id; world = new_lifecycle (c.scheduler id); observed = [] };
  relation_name = name;
  relation_scope = scope;
  relation_ident = ident;
}

unfoldable pub put_workflow : String → RelationWorkflowState → Relations → Relations
put_workflow id w r = record r { workflows = insert id w r.workflows }

-- The workflow is put before it is synchronized, which changes it in place.
unfoldable pub add_relation : Cluster → ServiceRelation → Relations → Relations × Bool
unfolding has_unit_state new_workflow put_workflow
add_relation c s r =
    let id = s.internal_relation_id in
    let w = new_workflow c id s.relation_name s.relation_ident s.relation_scope in
    let done = with_answer w (synchronize (c.answers id) w.machine) in
    if has_unit_state c id then (put_workflow id done.0 r, done.1) else (r, false)
