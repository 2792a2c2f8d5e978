-- ===== src/Topology/Relation.antt =====
-- juju/state/topology.py: the relations and the services assigned to them.
use trusted_juju.Prelude.{
  String, Bool, none, some, List, [], ◌∷◌, Result, ok, raise, check, ◌>>=◌, ◌>>◌, not, str_eq,
  if◌then◌else◌,
}
use trusted_juju.Prelude.Dict.{Dict, lookup, has_key, insert, remove, keys}
use trusted_juju.Topology.State.{
  Topology, Membership, Error, duplicated_relation, already_in_relation, role_in_use,
  not_in_relation, assert_service, assert_relation,
}

unfoldable pub add_relation : String → String → String → Topology → Result Error Topology
add_relation relation_id relation_type relation_scope t = do
  check (not (has_key relation_id t.relations)) (duplicated_relation relation_id)
  ok (record t {
    relations =
        insert relation_id
          (record { interface = relation_type; scope = relation_scope; services = [] }) t.relations;
  })

unfoldable pub has_relation : String → Topology → Bool
has_relation relation_id t = has_key relation_id t.relations

unfoldable pub get_relations : Topology → List String
get_relations t = keys t.relations

unfoldable pub get_relation_services : String → Topology → Result Error (Dict Membership)
unfolding assert_relation
get_relation_services relation_id t = do r ← assert_relation relation_id t; ok r.services

unfoldable pub get_relation_type : String → Topology → Result Error String
unfolding assert_relation
get_relation_type relation_id t = do r ← assert_relation relation_id t; ok r.interface

unfoldable pub get_relation_scope : String → Topology → Result Error String
unfolding assert_relation
get_relation_scope relation_id t = do r ← assert_relation relation_id t; ok r.scope

-- `relations.get(relation_id, {}).get("services", {})`: no guard here.
unfoldable pub relation_has_service : String → String → Topology → Bool
relation_has_service relation_id service_id t = elim (lookup relation_id t.relations) [
  | none ↦ Bool.false
  | some r ↦ has_key service_id r.services
]

unfoldable pub remove_relation : String → Topology → Result Error Topology
unfolding assert_relation
remove_relation relation_id t = do
  _ ← assert_relation relation_id t
  ok (record t { relations = remove relation_id t.relations })

-- The loop over the services of the relation, which raises at the first that stands in the way.
unfoldable pub check_members : String → String → Dict Membership → Result Error (Unit {0})
check_members service_id role [] = ok tt
check_members service_id role ((sid, m) ∷ members) =
    let rest = check_members service_id role members in
    if str_eq sid service_id
    then raise (already_in_relation service_id)
    else if str_eq m.role role
    then raise (role_in_use sid)
    else rest

unfoldable pub assign_service_to_relation :
    String → String → String → String → Topology → Result Error Topology
unfolding assert_service assert_relation check_members
assign_service_to_relation relation_id service_id name role t = do
  _ ← assert_service service_id t
  r ← assert_relation relation_id t
  check_members service_id role r.services
  let r' = record r {
    services = insert service_id (record { role = role; name = name }) r.services;
  }
  ok (record t { relations = insert relation_id r' t.relations })

unfoldable pub unassign_service_from_relation : String → String → Topology → Result Error Topology
unfolding assert_service assert_relation
unassign_service_from_relation relation_id service_id t = do
  _ ← assert_service service_id t
  r ← assert_relation relation_id t
  check (has_key service_id r.services) (not_in_relation service_id)
  let r' = record r { services = remove service_id r.services }
  ok (record t { relations = insert relation_id r' t.relations })

unfoldable pub get_relation_service :
    String → String → Topology → Result Error (String × Membership)
unfolding assert_service assert_relation
get_relation_service relation_id service_id t = do
  _ ← assert_service service_id t
  r ← assert_relation relation_id t
  elim (lookup service_id r.services) [
    | none ↦ raise (not_in_relation service_id)
    | some m ↦ ok (r.interface, m)
  ]
