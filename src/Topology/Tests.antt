-- ===== src/Topology/Tests.antt =====
-- Runs of the topology on small inputs, and the theorems about it at inputs that meet their
-- hypotheses.
use trusted_juju.Prelude.{
  ℕ, ◌<◌, String, ◌≡◌, ◌≢◌, ◌↔◌, ◌⊎◌, refl, true, none, some, List, [], ◌∷◌, ok, raise, Result,
}
use trusted_juju.Topology.State.{Topology, Error, initial, machine_in_use, role_in_use}
use trusted_juju.Topology.Invariant.{IsWellFormed}
use trusted_juju.Topology.Machine
use trusted_juju.Topology.Relation
use trusted_juju.Topology.Member
use trusted_juju.Topology.History.{
  Call, run, run-IsWellFormed, add_service, remove_service_unit, remove_service,
}
use trusted_juju.Topology.Numbering.{add_service_unit_never_reuses}
use trusted_juju.Topology.Queries.{
  get_service_unit_service_iff, find_service_unit_with_sequence_lem,
}
use trusted_juju.Topology.Machines.{
  remove_machine_refused_iff, assign_service_unit_to_machine_iff, unassign-assign,
}
use trusted_juju.Topology.Samples.{calls, unit_of, small, program, small-IsWellFormed}

remove_machine-small : Machine.remove_machine "m-0" small ≡ raise (machine_in_use "m-0")
unfolding program
remove_machine-small = refl

role_taken :
    Relation.assign_service_to_relation "r-0" "s-2" "db" "client"
      (run (add_service "s-2" "wiki" ∷ []) small)
    ≡ raise (role_in_use "s-0")
unfolding program
role_taken = refl

run-IsWellFormed_example : IsWellFormed (run calls initial)
run-IsWellFormed_example = run-IsWellFormed calls

-- The unit and the service go, and a service of the old name comes.
abbrev replaced : List Call
replaced = remove_service_unit "s-2" "u-2" ∷ remove_service "s-2" ∷ add_service "s-3" "wiki" ∷ []

abbrev with_wiki : Topology
with_wiki = record small {
  services =
      ("s-0", record { name = "blog"; units = ("u-0", unit_of 0 (some "m-0")) ∷ [] })
      ∷ ("s-1", record { name = "db"; units = ("u-1", unit_of 0 none) ∷ [] })
      ∷ ("s-2", record { name = "wiki"; units = [] })
      ∷ [];
  unit_sequence = ("blog", 1) ∷ ("db", 1) ∷ ("wiki", 0) ∷ [];
}

abbrev after_add : Result Error (Topology × ℕ) → Topology
after_add (ok (t, n)) = t
after_add (raise e) = initial

abbrev first_add : Topology
first_add = record with_wiki {
  services =
      ("s-0", record { name = "blog"; units = ("u-0", unit_of 0 (some "m-0")) ∷ [] })
      ∷ ("s-1", record { name = "db"; units = ("u-1", unit_of 0 none) ∷ [] })
      ∷ ("s-2", record { name = "wiki"; units = ("u-2", unit_of 0 none) ∷ [] })
      ∷ [];
  unit_sequence = ("blog", 1) ∷ ("db", 1) ∷ ("wiki", 1) ∷ [];
}

abbrev second_add : Topology
second_add = record with_wiki {
  services =
      ("s-0", record { name = "blog"; units = ("u-0", unit_of 0 (some "m-0")) ∷ [] })
      ∷ ("s-1", record { name = "db"; units = ("u-1", unit_of 0 none) ∷ [] })
      ∷ ("s-3", record { name = "wiki"; units = ("u-2", unit_of 1 none) ∷ [] })
      ∷ [];
  unit_sequence = ("blog", 1) ∷ ("db", 1) ∷ ("wiki", 2) ∷ [];
}

add_service_unit_never_reuses_example : 0 < 1
unfolding program
add_service_unit_never_reuses_example =
    add_service_unit_never_reuses replaced "s-2" "s-3" "u-2" "u-2" none none "wiki" 0 1 with_wiki
      first_add second_add refl refl refl refl

get_service_unit_service_iff_example :
    (Member.get_service_unit_service "u-1" small ≡ ok "s-1")
    ↔ (Member.has_service_unit "s-1" "u-1" small ≡ ok true)
get_service_unit_service_iff_example =
    get_service_unit_service_iff small "u-1" "s-1" small-IsWellFormed

find_service_unit_with_sequence_lem_example :
    Member.find_service_unit_with_sequence "s-1" 0 small ≡ ok (some "u-1")
unfolding program
find_service_unit_with_sequence_lem_example =
    find_service_unit_with_sequence_lem small "s-1" "u-1" 0 small-IsWellFormed refl

remove_machine_refused_iff_example :
    (Machine.remove_machine "m-0" small ≡ raise (machine_in_use "m-0")) ↔ (
      (Machine.has_machine "m-0" small ≡ true)
      × ((k : String) × (u : String) × (Member.get_service_unit_machine k u small
            ≡ ok (some "m-0"))))
remove_machine_refused_iff_example = remove_machine_refused_iff small "m-0" small-IsWellFormed

assign_service_unit_to_machine_iff_example :
    ((t' : Topology) × (Member.assign_service_unit_to_machine "s-1" "u-1" "m-0" small ≡ ok t')) ↔ (
      (Member.get_service_unit_machine "s-1" "u-1" small ≡ ok none)
      × (Machine.has_machine "m-0" small ≡ true))
assign_service_unit_to_machine_iff_example =
    assign_service_unit_to_machine_iff small "s-1" "u-1" "m-0"

abbrev both_on : Topology
both_on = record small {
  services =
      ("s-0", record { name = "blog"; units = ("u-0", unit_of 0 (some "m-0")) ∷ [] })
      ∷ ("s-1", record { name = "db"; units = ("u-1", unit_of 0 (some "m-0")) ∷ [] })
      ∷ [];
}

unassign-assign_example :
    (Member.get_service_unit_machine "s-1" "u-1" both_on ≡ ok (some "m-0"))
    × ((j v : String)
        → ("s-1" ≢ j) ⊎ ("u-1" ≢ v)
        → Member.get_service_unit_machine j v both_on ≡ Member.get_service_unit_machine j v small)
    × ((t'' : Topology) × (Member.unassign_service_unit_from_machine "s-1" "u-1" both_on ≡ ok t'')
        × ((j v : String)
            → Member.get_service_unit_machine j v t'' ≡ Member.get_service_unit_machine j v small))
unfolding program
unassign-assign_example = unassign-assign small both_on "s-1" "u-1" "m-0" refl
