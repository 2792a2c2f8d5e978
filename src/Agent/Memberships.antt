-- ===== src/Agent/Memberships.antt =====
-- juju/unit/lifecycle.py, `UnitLifecycle`: the workflows follow the relations of the service, also
-- those that were broken while the agent was down.
use trusted_juju.Prelude.{
  String, Bool, true, false, not, ◌&&◌, Option, none, some, List, [], ◌∷◌, ◌++◌, if◌then◌else◌,
  str_eq,
}
use trusted_juju.Prelude.Dict.{Dict, lookup, insert, remove, keys}
use trusted_juju.Prelude.Sets.{contains, difference}
use trusted_juju.Agent.Relations.{
  each, Cluster, ServiceRelation, RelationInfo, RelationWorkflowState, Relations, move_to,
  stop_lifecycle, store_relations, new_workflow, put_workflow, add_relation,
}

-- A call that may raise, and the rest of the code after it.
abbrev pub and_then : Relations × Bool → (Relations → Relations × Bool) → Relations × Bool
and_then (r, true) next = next r
and_then (r, false) next = (r, false)

unfoldable pub add_by_id : Dict ServiceRelation → List ServiceRelation → Dict ServiceRelation
add_by_id d [] = d
add_by_id d (s ∷ more) = add_by_id (insert s.internal_relation_id s d) more

-- `dict((r.internal_relation_id, r) for r in …)`
unfoldable pub by_id : List ServiceRelation → Dict ServiceRelation
unfolding add_by_id
by_id = add_by_id []

-- "Once we know a relation is departed, *immediately* stop running its hooks."
unfoldable pub stop_if :
    Cluster → List String → String → RelationWorkflowState → RelationWorkflowState × Bool
unfolding stop_lifecycle
stop_if c removed id w = if contains id removed then stop_lifecycle c id w else (w, true)

abbrev pub with_workflows : Relations → Dict RelationWorkflowState × Bool → Relations × Bool
with_workflows r (workflows, returns) = (record r { workflows = workflows }, returns)

unfoldable pub stop_removed : Cluster → List String → Relations → Relations × Bool
unfolding each stop_if
stop_removed c removed r = with_workflows r (each (stop_if c removed) r.workflows)

abbrev pub popped_as : String → Relations → RelationWorkflowState × Bool → Relations × Bool
popped_as id r (w, returns) =
    (record r { workflows = remove id r.workflows; popped = r.popped ++ (id, w) ∷ [] }, returns)

-- The workflow is popped, which raises a `KeyError` where there is none, and departs.
unfoldable pub depart_found :
    Cluster → String → Relations → Option RelationWorkflowState → Relations × Bool
unfolding move_to store_relations
depart_found c id r none = (r, false)
depart_found c id r (some w) =
    and_then (popped_as id r (move_to c (some "departed") id w)) (λ r'. (store_relations r', true))

unfoldable pub depart : Cluster → String → Relations → Relations × Bool
unfolding depart_found
depart c id r = depart_found c id r (lookup id r.workflows)

unfoldable pub depart_all : Cluster → List String → Relations → Relations × Bool
unfolding depart
depart_all c [] r = (r, true)
depart_all c (id ∷ ids) r = and_then (depart c id r) (λ r'. depart_all c ids r')

-- `_add_subordinate_unit` is called for its effect, which is not waited for.
unfoldable pub deploy : Bool → ServiceRelation → Relations → Relations
deploy is_principal s r =
    if is_principal && str_eq s.relation_scope "container"
    then record r { deployed = r.deployed ++ s.internal_relation_id ∷ [] }
    else r

unfoldable pub add_found : Cluster → Bool → Relations → Option ServiceRelation → Relations × Bool
unfolding add_relation deploy store_relations
add_found c is_principal r none = (r, false)
add_found c is_principal r (some s) =
    and_then (add_relation c s r) (λ r'. (store_relations (deploy is_principal s r'), true))

unfoldable pub add_new :
    Cluster → Bool → Dict ServiceRelation → String → Relations → Relations × Bool
unfolding add_found
add_new c is_principal new_relations id r = add_found c is_principal r (lookup id new_relations)

unfoldable pub add_all :
    Cluster → Bool → Dict ServiceRelation → List String → Relations → Relations × Bool
unfolding add_new
add_all c is_principal new_relations [] r = (r, true)
add_all c is_principal new_relations (id ∷ ids) r =
    and_then (add_new c is_principal new_relations id r)
      (λ r'. add_all c is_principal new_relations ids r')

abbrev pub added : Dict ServiceRelation → Relations → List String
added new_relations r = difference (keys new_relations) (keys r.workflows)

abbrev pub removed : Dict ServiceRelation → Relations → List String
removed new_relations r = difference (keys r.workflows) (keys new_relations)

unfoldable pub process_delta :
    Cluster → Dict ServiceRelation → Relations → Option Bool → Relations × Bool
unfolding stop_removed depart_all add_all
process_delta c new_relations r none = (r, false)
process_delta c new_relations r (some is_subordinate) =
    and_then (stop_removed c (removed new_relations r) r) (λ r1.
      and_then (depart_all c (removed new_relations r) r1)
        (add_all c (not is_subordinate) new_relations (added new_relations r)))

-- The old relations are not used.
unfoldable pub process_service_changes :
    Cluster → List ServiceRelation → Relations → Relations × Bool
unfolding by_id process_delta
process_service_changes c service_relations r =
    process_delta c (by_id service_relations) r c.is_subordinate

-- The part of the text before the first colon.
unfoldable pub before_colon : String → String
before_colon String.[] = String.[]
before_colon (String.◌∷◌ c more) =
    let rest = before_colon more in
    if str_eq (String.◌∷◌ c String.[]) ":" then String.[] else String.◌∷◌ c rest

-- `_reconstruct_workflow`, with the stored name as the identity.
unfoldable pub reconstruct_workflow : Cluster → String → RelationInfo → RelationWorkflowState
unfolding new_workflow before_colon
reconstruct_workflow c id info =
    new_workflow c id (before_colon info.relation_name) info.relation_name info.relation_scope

unfoldable pub load_found :
    Cluster → String → RelationInfo → Relations → Option ServiceRelation → Relations × Bool
unfolding add_relation reconstruct_workflow put_workflow
load_found c id info r (some s) = add_relation c s r
load_found c id info r none = (put_workflow id (reconstruct_workflow c id info) r, true)

unfoldable pub load_known :
    Cluster → Dict ServiceRelation → String → RelationInfo → Relations → Relations × Bool
unfolding load_found
load_known c relations_by_id id info r = load_found c id info r (lookup id relations_by_id)

unfoldable pub load_all :
    Cluster → Dict ServiceRelation → Dict RelationInfo → Relations → Relations × Bool
unfolding load_known
load_all c relations_by_id [] r = (r, true)
load_all c relations_by_id ((id, info) ∷ more) r =
    and_then (load_known c relations_by_id id info r) (λ r'. load_all c relations_by_id more r')

unfoldable pub load_from :
    Cluster
    → Option (Dict RelationInfo)
    → Option (List ServiceRelation)
    → Relations
    → Relations × Bool
unfolding by_id load_all
load_from c none relations r = (r, true)
load_from c (some known) none r = (r, false)
load_from c (some known) (some relations) r = load_all c (by_id relations) known r

unfoldable pub load_relations : Cluster → Relations → Relations × Bool
unfolding load_from
load_relations c r = load_from c r.known c.get_relations_for_service (record r { workflows = [] })
