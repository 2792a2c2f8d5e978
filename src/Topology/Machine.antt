-- ===== src/Topology/Machine.antt =====
-- juju/state/topology.py: the machines.
use trusted_juju.Prelude.{
  String, List, Bool, none, some, Result, ok, check, ◌>>=◌, ◌>>◌, not, str_eq,
}
use trusted_juju.Prelude.Dict.{Dict, has_key, insert, remove, any_value, keys}
use trusted_juju.Prelude.Sets.{sorted}
use trusted_juju.Topology.State.{
  Topology, Service, ServiceUnit, Error, duplicated_machine, machine_in_use, assert_machine,
}

-- `unit.get("machine") == machine_id`
abbrev pub is_on : String → ServiceUnit → Bool
is_on machine_id unit = elim (unit.machine) [ none ↦ Bool.false | some m ↦ str_eq m machine_id ]

unfoldable pub add_machine : String → Topology → Result Error Topology
add_machine machine_id t = do
  check (not (has_key machine_id t.machines)) (duplicated_machine machine_id)
  ok (record t { machines = insert machine_id tt t.machines })

unfoldable pub has_machine : String → Topology → Bool
has_machine machine_id t = has_key machine_id t.machines

-- The nested loops of `machine_has_units`.
unfoldable pub some_unit_on : String → Dict Service → Bool
some_unit_on machine_id services =
    any_value (λ (s : Service). any_value (is_on machine_id) s.units) services

unfoldable pub machine_has_units : String → Topology → Result Error Bool
unfolding assert_machine some_unit_on
machine_has_units machine_id t = do
  assert_machine machine_id t
  ok (some_unit_on machine_id t.services)

unfoldable pub remove_machine : String → Topology → Result Error Topology
unfolding machine_has_units
remove_machine machine_id t = do
  assert_machine machine_id t
  busy ← machine_has_units machine_id t
  check (not busy) (machine_in_use machine_id)
  ok (record t { machines = remove machine_id t.machines })

unfoldable pub get_machines : Topology → List String
get_machines t = sorted (keys t.machines)
