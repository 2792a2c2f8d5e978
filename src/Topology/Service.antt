-- ===== src/Topology/Service.antt =====
-- juju/state/topology.py: the services, their names and the relations that they are in.
use trusted_juju.Prelude.{
  ℕ, String, Bool, Option, none, some, List, [], ◌∷◌, Result, ok, check, ◌>>=◌, ◌>>◌, not, str_eq,
  if◌then◌else◌,
}
use trusted_juju.Prelude.Dict.{Dict, lookup, has_key, insert, remove, any_value, find_key, keys}
use trusted_juju.Topology.State.{
  Topology, Service, Relation, Membership, Error, duplicated_service, name_in_use,
  service_in_relations, assert_service,
}

abbrev pub is_named : String → Service → Bool
is_named service_name service = str_eq service.name service_name

-- `setdefault` on the sequences: a name that was used before keeps its counter.
abbrev pub default_sequence : String → Dict ℕ → Dict ℕ
default_sequence service_name sequences =
    if has_key service_name sequences then sequences else insert service_name 0 sequences

unfoldable pub add_service : String → String → Topology → Result Error Topology
add_service service_id service_name t = do
  check (not (has_key service_id t.services)) (duplicated_service service_id)
  check (not (any_value (is_named service_name) t.services)) (name_in_use service_name)
  ok (record t {
    services = insert service_id (record { name = service_name; units = [] }) t.services;
    unit_sequence = default_sequence service_name t.unit_sequence;
  })

unfoldable pub has_service : String → Topology → Bool
has_service service_id t = has_key service_id t.services

unfoldable pub get_service_name : String → Topology → Result Error String
unfolding assert_service
get_service_name service_id t = do service ← assert_service service_id t; ok service.name

unfoldable pub find_service_with_name : String → Topology → Option String
find_service_with_name service_name t = find_key (is_named service_name) t.services

unfoldable pub get_services : Topology → List String
get_services t = keys t.services

-- A row of `get_relations_for_service`.
pub record RelationInfo : Type 0 where
  pub relation_id : String
  pub interface : String
  pub scope : String
  pub service : Membership

unfoldable pub relations_with : String → Dict Relation → List RelationInfo
relations_with service_id [] = []
relations_with service_id ((relation_id, r) ∷ relations) =
    let rest = relations_with service_id relations in
    elim (lookup service_id r.services) [
      | none ↦ rest
      | some m ↦
          record {
            relation_id = relation_id;
            interface = r.interface;
            scope = r.scope;
            service = m;
          }
          ∷ rest
    ]

unfoldable pub get_relations_for_service : String → Topology → Result Error (List RelationInfo)
unfolding assert_service
get_relations_for_service service_id t = do
  assert_service service_id t >>= λ _. ok (relations_with service_id t.relations)

abbrev pub is_nil {ℓ} : {A : Type ℓ} → List A → Bool
is_nil [] = Bool.true
is_nil (x ∷ xs) = Bool.false

unfoldable pub remove_service : String → Topology → Result Error Topology
unfolding get_relations_for_service
remove_service service_id t = do
  _ ← assert_service service_id t
  relations ← get_relations_for_service service_id t
  check (is_nil relations) (service_in_relations service_id)
  ok (record t { services = remove service_id t.services })
