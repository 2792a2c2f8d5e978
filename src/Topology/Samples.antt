-- ===== src/Topology/Samples.antt =====
-- A small topology, as a run of calls makes it, for the tests.
use trusted_juju.Prelude.{ℕ, String, ◌≡◌, refl, Option, none, some, List, [], ◌∷◌}
use trusted_juju.Prelude.Dict.{lookup, insert, remove, find_key, any_value}
use trusted_juju.Topology.State.{Topology, ServiceUnit, initial, parse}
use trusted_juju.Topology.Invariant.{IsWellFormed}
use trusted_juju.Topology.Machine
use trusted_juju.Topology.Service
use trusted_juju.Topology.Relation
use trusted_juju.Topology.Member
use trusted_juju.Topology.Endpoint
use trusted_juju.Topology.Endpoint.{RelationEndpoint}
use trusted_juju.Topology.History.{
  Call, run, run-IsWellFormed, add_machine, add_service, add_service_unit,
  assign_service_unit_to_machine, add_relation, assign_service_to_relation, remove_machine,
}

-- Two services with a unit each, on one machine, and a relation between the services. Two of the
-- calls raise: a second machine of the same id, and a machine that is in use.
abbrev pub calls : List Call
calls =
    add_machine "m-0"
    ∷ add_machine "m-0"
    ∷ add_service "s-0" "blog"
    ∷ add_service "s-1" "db"
    ∷ add_service_unit "s-0" "u-0" none
    ∷ add_service_unit "s-1" "u-1" none
    ∷ assign_service_unit_to_machine "s-0" "u-0" "m-0"
    ∷ remove_machine "m-0"
    ∷ add_relation "r-0" "mysql" "global"
    ∷ assign_service_to_relation "r-0" "s-0" "db" "client"
    ∷ assign_service_to_relation "r-0" "s-1" "server" "server"
    ∷ []

abbrev pub unit_of : ℕ → Option String → ServiceUnit
unit_of n machine = record { sequence = n; container = none; machine = machine }

abbrev pub small : Topology
small = record {
  version = some 2;
  machines = ("m-0", tt) ∷ [];
  services =
      ("s-0", record { name = "blog"; units = ("u-0", unit_of 0 (some "m-0")) ∷ [] })
      ∷ ("s-1", record { name = "db"; units = ("u-1", unit_of 0 none) ∷ [] })
      ∷ [];
  unit_sequence = ("blog", 1) ∷ ("db", 1) ∷ [];
  relations =
      (
        "r-0",
        record {
          interface = "mysql";
          scope = "global";
          services =
              ("s-0", record { role = "client"; name = "db" })
              ∷ ("s-1", record { role = "server"; name = "server" })
              ∷ [];
        },
      )
      ∷ [];
}

unfoldable pub program : Unit {0}
unfolding initial run Machine.add_machine Machine.remove_machine Machine.machine_has_units
    Machine.has_machine Machine.some_unit_on Service.add_service Service.remove_service
    Service.relations_with Service.has_service Service.get_service_name
    Service.find_service_with_name Relation.add_relation Relation.assign_service_to_relation
    Relation.check_members Relation.relation_has_service Relation.get_relation_service
    Member.add_service_unit Member.has_service_unit Member.get_service_unit_service
    Member.remove_service_unit Member.assign_service_unit_to_machine Member.get_service_unit_machine
    Member.get_service_unit_sequence Member.find_service_unit_with_sequence lookup insert remove
    find_key any_value parse Endpoint.get_relation_between_endpoints Endpoint.all_join
program = tt

pub run-calls : run calls initial ≡ small
unfolding program
run-calls = refl

pub small-IsWellFormed : IsWellFormed small
small-IsWellFormed = rw (← run-calls) (run-IsWellFormed calls)
