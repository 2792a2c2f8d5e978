-- ===== src/Topology/Member.antt =====
-- juju/state/topology.py: the service units, their sequence numbers and their machines.
use trusted_juju.Prelude.{
  ℕ, ◌+◌, String, Bool, Option, none, some, List, [], ◌∷◌, ◌++◌, Result, ok, raise, check, ◌>>=◌,
  ◌>>◌, not, str_eq, ◌==◌, if◌then◌else◌,
}
use trusted_juju.Prelude.Dict.{
  Dict, lookup, has_key, is_some, insert, remove, any_value, find_key, keys,
}
use trusted_juju.Topology.State.{
  Topology, Service, ServiceUnit, Error, duplicated_unit, unit_not_found, already_assigned,
  not_assigned, no_container_relation, key_error, assert_service, assert_service_unit,
  assert_machine,
}
use trusted_juju.Topology.Machine.{is_on}
use trusted_juju.Topology.Service.{RelationInfo, get_relations_for_service}
use trusted_juju.Topology.Relation.{relation_has_service, get_relation_scope}

abbrev pub has_unit : String → Service → Bool
has_unit unit_id service = has_key unit_id service.units

unfoldable pub get_service_unit_service : String → Topology → Result Error String
get_service_unit_service unit_id t = elim (find_key (has_unit unit_id) t.services) [
  | none ↦ raise (unit_not_found unit_id)
  | some service_id ↦ ok service_id
]

-- The `for relation in relations` loop of `add_service_unit`, with its `break`.
unfoldable pub find_container_relation : String → Topology → List RelationInfo → Result Error Bool
unfolding relation_has_service get_relation_scope
find_container_relation principal t [] = ok Bool.false
find_container_relation principal t (info ∷ relations) =
    let rest = find_container_relation principal t relations in
    if relation_has_service info.relation_id principal t
    then (do
      scope ← get_relation_scope info.relation_id t
      if str_eq scope "container" then ok Bool.true else rest)
    else rest

unfoldable pub check_container : String → Option String → Topology → Result Error (Unit {0})
unfolding get_service_unit_service get_relations_for_service find_container_relation
check_container service_id none t = ok tt
check_container service_id (some container_id) t = do
  principal ← get_service_unit_service container_id t
  relations ← get_relations_for_service service_id t
  found ← find_container_relation principal t relations
  check found no_container_relation

-- The state after a unit entry of a service is replaced.
abbrev pub put_unit : String → Service → String → ServiceUnit → Topology → Topology
put_unit service_id service unit_id unit t = record t {
  services =
      insert service_id (record service { units = insert unit_id unit service.units }) t.services;
}

unfoldable pub add_service_unit :
    String → String → Option String → Topology → Result Error (Topology × ℕ)
unfolding assert_service check_container
add_service_unit service_id unit_id container_id t = do
  service ← assert_service service_id t
  check (not (any_value (has_unit unit_id) t.services)) (duplicated_unit unit_id)
  check_container service_id container_id t
  elim (lookup service.name t.unit_sequence) [
    | none ↦ raise (key_error service.name)
    | some sequence ↦
        let unit : ServiceUnit = record {
          sequence = sequence;
          container = container_id;
          machine = none;
        } in
        let t' = put_unit service_id service unit_id unit t in
        ok (
          record t' { unit_sequence = insert service.name (sequence + 1) t.unit_sequence },
          sequence,
        )
  ]

unfoldable pub has_service_unit : String → String → Topology → Result Error Bool
unfolding assert_service
has_service_unit service_id unit_id t = do
  service ← assert_service service_id t
  ok (has_unit unit_id service)

unfoldable pub get_service_units : String → Topology → Result Error (List String)
unfolding assert_service
get_service_units service_id t = do service ← assert_service service_id t; ok (keys service.units)

-- The loop of `get_service_unit_principal`: the first service that has the unit.
unfoldable pub principal_in : String → Dict Service → Result Error (Option String)
principal_in unit_id [] = raise (unit_not_found unit_id)
principal_in unit_id ((service_id, service) ∷ services) =
    let rest = principal_in unit_id services in
    elim (lookup unit_id service.units) [ none ↦ rest | some unit ↦ ok unit.container ]

unfoldable pub get_service_unit_principal : String → Topology → Result Error (Option String)
unfolding principal_in
get_service_unit_principal unit_id t = principal_in unit_id t.services

unfoldable pub remove_service_unit : String → String → Topology → Result Error Topology
unfolding assert_service_unit
remove_service_unit service_id unit_id t = do
  (service, _) ← assert_service_unit service_id unit_id t
  let service' = record service { units = remove unit_id service.units }
  ok (record t { services = insert service_id service' t.services })

unfoldable pub find_service_unit_with_sequence :
    String → ℕ → Topology → Result Error (Option String)
unfolding assert_service
find_service_unit_with_sequence service_id sequence t = do
  service ← assert_service service_id t
  ok (find_key (λ (u : ServiceUnit). u.sequence == sequence) service.units)

unfoldable pub get_service_unit_sequence : String → String → Topology → Result Error ℕ
unfolding assert_service_unit
get_service_unit_sequence service_id unit_id t = do
  (_, unit) ← assert_service_unit service_id unit_id t
  ok unit.sequence

unfoldable pub assign_service_unit_to_machine :
    String → String → String → Topology → Result Error Topology
unfolding assert_service_unit assert_machine
assign_service_unit_to_machine service_id unit_id machine_id t = do
  (service, unit) ← assert_service_unit service_id unit_id t
  assert_machine machine_id t
  check (not (is_some unit.machine)) (already_assigned unit_id)
  ok (put_unit service_id service unit_id (record unit { machine = some machine_id }) t)

unfoldable pub get_service_unit_machine : String → String → Topology → Result Error (Option String)
unfolding assert_service_unit
get_service_unit_machine service_id unit_id t = do
  (_, unit) ← assert_service_unit service_id unit_id t
  ok unit.machine

unfoldable pub unassign_service_unit_from_machine :
    String → String → Topology → Result Error Topology
unfolding assert_service_unit
unassign_service_unit_from_machine service_id unit_id t = do
  (service, unit) ← assert_service_unit service_id unit_id t
  check (is_some unit.machine) (not_assigned unit_id)
  ok (put_unit service_id service unit_id (record unit { machine = none }) t)

-- The inner loop of `get_service_units_in_machine`, over one service.
unfoldable pub units_on : String → Dict ServiceUnit → List String
units_on machine_id [] = []
units_on machine_id ((unit_id, unit) ∷ units) =
    let rest = units_on machine_id units in if is_on machine_id unit then unit_id ∷ rest else rest

unfoldable pub units_in_services : String → Dict Service → List String
unfolding units_on
units_in_services machine_id [] = []
units_in_services machine_id ((service_id, service) ∷ services) =
    units_on machine_id service.units ++ units_in_services machine_id services

unfoldable pub get_service_units_in_machine : String → Topology → Result Error (List String)
unfolding assert_machine units_in_services
get_service_units_in_machine machine_id t = do
  assert_machine machine_id t
  ok (units_in_services machine_id t.services)
