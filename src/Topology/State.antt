-- ===== src/Topology/State.antt =====
-- juju/state/topology.py: the dictionary behind `InternalTopology`, its versions and its guards.
-- A top-level key that is absent is read as an empty dict everywhere in the source (`.get` with a
-- default, or `setdefault`), so absent and empty are one value here.
use trusted_juju.Prelude.{
  ℕ, zero, suc, String, List, ◌∷◌, Option, none, some, [], ltb, ◌==◌, if◌then◌else◌, Result, ok,
  raise, check, ◌>>=◌,
}
use trusted_juju.Prelude.Dict.{Dict, lookup, has_key}

-- What `InternalTopologyError` is raised for, and the other exceptions of the module.
pub data Error : Type 0 where
  duplicated_machine machine_not_found machine_in_use : String → Error
  duplicated_service name_in_use service_not_found service_in_relations : String → Error
  duplicated_unit unit_not_found already_assigned not_assigned : String → Error
  no_container_relation : Error
  duplicated_relation relation_not_found : String → Error
  already_in_relation role_in_use not_in_relation : String → Error
  key_error : String → Error
  index_error : Error
  value_error : String → Error
  incompatible_version : ℕ → ℕ → Error
  -- Of the model: a loop has had no fuel left.
  out_of_fuel : Error

-- `units[unit_id]`: the key "machine" is there only while the unit is assigned.
pub record ServiceUnit : Type 0 where
  pub sequence : ℕ
  pub container : Option String
  pub machine : Option String

pub record Service : Type 0 where
  pub name : String
  pub units : Dict ServiceUnit

-- `relation_data["services"][service_id]`
pub record Membership : Type 0 where
  pub role : String
  pub name : String

pub record Relation : Type 0 where
  pub interface : String
  pub scope : String
  pub services : Dict Membership

pub record Topology : Type 0 where
  pub version : Option ℕ
  pub machines : Dict (Unit {0})
  pub services : Dict Service
  pub unit_sequence : Dict ℕ
  pub relations : Dict Relation

abbrev pub current_version : ℕ
current_version = 2

-- `__init__` and `reset`
unfoldable pub initial : Topology
initial = record {
  version = some current_version;
  machines = [];
  services = [];
  unit_sequence = [];
  relations = [];
}

unfoldable pub reset : Topology → Topology
reset t = initial

unfoldable pub get_version : Topology → ℕ
get_version t = elim (t.version) [ none ↦ 0 | some v ↦ v ]

-- `_VERSION_MIGRATION`: what changes a topology of a version to the next one. There is none.
abbrev pub version_migration : List (ℕ × (Topology → Topology))
version_migration = []

unfoldable pub migration_of : ℕ → List (ℕ × (Topology → Topology)) → Option (Topology → Topology)
migration_of version [] = none
migration_of version ((n, migration) ∷ migrations) =
    if n == version then some migration else migration_of version migrations

-- The `while` loop of `migrate_topology`, on fuel for the rounds after the first: the version read
-- before it, the current one, and the topology, which a migration changes in place.
unfoldable pub migrate_while : ℕ → ℕ → ℕ → Topology → Topology × Result Error (Unit {0})
unfolding get_version migration_of
migrate_while zero version current t =
    if ltb current current_version
    then (elim (migration_of current version_migration) [
      | none ↦ (t, raise (incompatible_version version current_version))
      | some migration ↦ (migration t, raise out_of_fuel)
    ])
    else (t, ok tt)
migrate_while (suc fuel) version current t =
    if ltb current current_version
    then (elim (migration_of current version_migration) [
      | none ↦ (t, raise (incompatible_version version current_version))
      | some migration ↦ migrate_while fuel version (get_version (migration t)) (migration t)
    ])
    else (t, ok tt)

-- Each migration gives a higher version.
unfoldable pub migrate_topology : Topology → Topology × Result Error (Unit {0})
unfolding migrate_while
migrate_topology t =
    let version = get_version t in
    if version == current_version
    then (t, ok tt)
    else migrate_while current_version version version t

-- `parse`, over the value that YAML gives. The new state stands also when this raises.
unfoldable pub parse : Topology → Topology → Topology × Result Error (Unit {0})
unfolding migrate_topology
parse t parsed =
    if get_version parsed == current_version then (parsed, ok tt) else migrate_topology parsed

unfoldable pub assert_machine : String → Topology → Result Error (Unit {0})
assert_machine machine_id t = check (has_key machine_id t.machines) (machine_not_found machine_id)

-- `_assert_service`, and the entry that every caller reads next.
unfoldable pub assert_service : String → Topology → Result Error Service
assert_service service_id t = elim (lookup service_id t.services) [
  | none ↦ raise (service_not_found service_id)
  | some service ↦ ok service
]

unfoldable pub assert_relation : String → Topology → Result Error Relation
assert_relation relation_id t = elim (lookup relation_id t.relations) [
  | none ↦ raise (relation_not_found relation_id)
  | some relation ↦ ok relation
]

-- `_assert_service_unit`, with the service and the unit.
unfoldable pub assert_service_unit :
    String → String → Topology → Result Error (Service × ServiceUnit)
unfolding assert_service
assert_service_unit service_id unit_id t = do
  service ← assert_service service_id t
  elim (lookup unit_id service.units) [
    | none ↦ raise (unit_not_found unit_id)
    | some unit ↦ ok (service, unit)
  ]
