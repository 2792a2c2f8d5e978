-- ===== src/Topology/Machines.antt =====
-- juju/state/topology.py: which units are on which machine, through the operations that change it.
use trusted_juju.Prelude.{
  String, ◌≡◌, ◌≢◌, ◌↔◌, refl, ◌∙◌, true, Option, none, some, arith, eq_iff, str_eq, Option-cases,
  inl, inr, ok, raise, if◌then◌else◌, ◌⊎◌, Result, eq_refl, ap,
}
use trusted_juju.Prelude.Dict.{
  lookup, insert, any_value, any_value-eq-true, any_value_of_lookup, lookup-insert,
}
use trusted_juju.Topology.State.{Topology, Service, ServiceUnit, Error, machine_in_use}
use trusted_juju.Topology.Invariant.{IsWellFormed}
use trusted_juju.Topology.Machine.{remove_machine, has_machine, some_unit_on, is_on}
use trusted_juju.Topology.Member.{
  get_service_unit_machine, assign_service_unit_to_machine, unassign_service_unit_from_machine,
  put_unit,
}
use trusted_juju.Topology.Keeps.Units.{assign-eq-ok}

unit_at :
    (t : Topology) (k u : String) (o : Option String)
    → get_service_unit_machine k u t ≡ ok o
    → (s : Service) × (unit : ServiceUnit) × (lookup k t.services ≡ some s)
      × (lookup u s.units ≡ some unit)
      × (unit.machine ≡ o)
unfolding get_service_unit_machine
unit_at t k u o h = ground arith

get_service_unit_machine-eq :
    (t : Topology) (k u : String) (s : Service) (unit : ServiceUnit)
    → lookup k t.services ≡ some s
    → lookup u s.units ≡ some unit
    → get_service_unit_machine k u t ≡ ok unit.machine
unfolding get_service_unit_machine
get_service_unit_machine-eq t k u s unit hs hu = ground arith

is_on_iff : (m : String) (unit : ServiceUnit) → (is_on m unit ≡ true) ↔ (unit.machine ≡ some m)
is_on_iff m unit = elim (Option-cases (unit.machine)) [
  | inl e ↦ ground arith
  | inr (x, e) ↦ ground (arith, eq_iff x m)
]

some_unit_on_sound :
    (t : Topology) (m : String)
    → IsWellFormed t
    → some_unit_on m t.services ≡ true
    → (k : String) × (u : String) × (get_service_unit_machine k u t ≡ ok (some m))
unfolding some_unit_on
some_unit_on_sound t m w h =
    let (k, s, hs, e) =
      any_value-eq-true (λ (s : Service). any_value (is_on m) s.units) t.services
        w.sequenced.distinct h in
    let (u, unit, hu, e') =
      any_value-eq-true (is_on m) s.units (w.sequenced.units_distinct k s hs) e in
    (k, u, rw (← ((is_on_iff m unit).0 e')) (get_service_unit_machine-eq t k u s unit hs hu))

some_unit_on_complete :
    (t : Topology) (m k u : String)
    → get_service_unit_machine k u t ≡ ok (some m)
    → some_unit_on m t.services ≡ true
unfolding some_unit_on
some_unit_on_complete t m k u h =
    let (s, unit, hs, hu, e) = unit_at t k u (some m) h in
    any_value_of_lookup (λ (s : Service). any_value (is_on m) s.units) t.services k s hs
      (any_value_of_lookup (is_on m) s.units u unit hu ((is_on_iff m unit).1 e))

remove_machine_busy :
    (t : Topology) (m : String)
    → (remove_machine m t ≡ raise (machine_in_use m))
      ↔ ((has_machine m t ≡ true) × (some_unit_on m t.services ≡ true))
unfolding remove_machine has_machine
remove_machine_busy t m = (λ h. ground arith, λ h. ground arith)

-- In a well-formed topology, removing a machine is refused for its units exactly when the machine is
-- registered and some unit is assigned to it.
pub remove_machine_refused_iff :
    (t : Topology) (m : String)
    → IsWellFormed t
    → (remove_machine m t ≡ raise (machine_in_use m)) ↔ (
        (has_machine m t ≡ true)
        × ((k : String) × (u : String) × (get_service_unit_machine k u t ≡ ok (some m))))
remove_machine_refused_iff t m w = (
  λ h. let (known, busy) = (remove_machine_busy t m).0 h in (known, some_unit_on_sound t m w busy),
  λ (known, (k, u, h)). (remove_machine_busy t m).1 (known, some_unit_on_complete t m k u h),
)

machine_after_put :
    (t : Topology) (k u j v : String) (s : Service) (unit unit' : ServiceUnit)
    → lookup k t.services ≡ some s
    → lookup u s.units ≡ some unit
    → get_service_unit_machine j v (put_unit k s u unit' t) ≡ (
        if str_eq k j
        then (if str_eq u v then ok unit'.machine else get_service_unit_machine j v t)
        else get_service_unit_machine j v t)
unfolding get_service_unit_machine
machine_after_put t k u j v s unit unit' hs hu = ground (
  arith,
  eq_iff k j,
  eq_iff u v,
  lookup-insert k j (record s { units = insert u unit' s.units }) t.services,
  lookup-insert u v unit' s.units,
)

-- Assigning succeeds exactly when the unit exists and is on no machine and the machine is
-- registered.
pub assign_service_unit_to_machine_iff :
    (t : Topology) (k u m : String)
    → ((t' : Topology) × (assign_service_unit_to_machine k u m t ≡ ok t'))
      ↔ ((get_service_unit_machine k u t ≡ ok none) × (has_machine m t ≡ true))
unfolding get_service_unit_machine assign_service_unit_to_machine has_machine
assign_service_unit_to_machine_iff t k u m = (λ (t', h). ground arith, λ h. succeeds h)
  where
    succeeds :
        (get_service_unit_machine k u t ≡ ok none) × (has_machine m t ≡ true)
        → (t' : Topology) × (assign_service_unit_to_machine k u m t ≡ ok t')
    succeeds (h, known) =
        let (s, unit, hs, hu, e) = unit_at t k u none h in
        (put_unit k s u (record unit { machine = some m }) t, ground arith)

unassign-eq :
    (t : Topology) (k u m : String) (s : Service) (unit : ServiceUnit)
    → lookup k t.services ≡ some s
    → lookup u s.units ≡ some unit
    → unit.machine ≡ some m
    → unassign_service_unit_from_machine k u t
      ≡ ok (put_unit k s u (record unit { machine = none }) t)
unfolding unassign_service_unit_from_machine
unassign-eq t k u m s unit hs hu hm = ground arith

abbrev read_at :
    String
    → String
    → String
    → String
    → Result Error (Option String)
    → Result Error (Option String)
    → Result Error (Option String)
read_at k u j v new old = if str_eq k j then (if str_eq u v then new else old) else old

elsewhere :
    (t : Topology) (k u j v : String) (new : Result Error (Option String))
    → (k ≢ j) ⊎ (u ≢ v)
    → read_at k u j v new (get_service_unit_machine j v t) ≡ get_service_unit_machine j v t
elsewhere t k u j v new apart = ground (arith, eq_iff k j, eq_iff u v)

back :
    (t : Topology) (k u j v : String) (o : Option String) (x y : Result Error (Option String))
    → get_service_unit_machine k u t ≡ ok none
    → x ≡ read_at k u j v (ok o) (get_service_unit_machine j v t)
    → y ≡ read_at k u j v (ok none) x
    → y ≡ get_service_unit_machine j v t
back t k u j v o x y h h1 h2 = ground (arith, eq_iff k j, eq_iff u v)

-- After an assignment the unit is on the machine and every other unit is where it was; taking the
-- unit off again succeeds, and puts every unit back where it was before the assignment.
pub unassign-assign :
    (t t' : Topology) (k u m : String)
    → assign_service_unit_to_machine k u m t ≡ ok t'
    → (get_service_unit_machine k u t' ≡ ok (some m))
      × ((j v : String)
          → (k ≢ j) ⊎ (u ≢ v)
          → get_service_unit_machine j v t' ≡ get_service_unit_machine j v t)
      × ((t'' : Topology) × (unassign_service_unit_from_machine k u t' ≡ ok t'')
          × ((j v : String) → get_service_unit_machine j v t'' ≡ get_service_unit_machine j v t))
unassign-assign t t' k u m h =
    let (s, unit, hs, hu, free, _, e) = assign-eq-ok k u t t' m h in
    let unit1 : ServiceUnit = record unit { machine = some m } in
    let s1 : Service = record s { units = insert u unit1 s.units } in
    let hs1 : lookup k (insert k s1 t.services) ≡ some s1 =
      lookup-insert k k s1 t.services ∙ rw (eq_refl k) in
    let hu1 : lookup u s1.units ≡ some unit1 = lookup-insert u u unit1 s.units ∙ rw (eq_refl u) in
    let at_first = get_service_unit_machine-eq t k u s unit hs hu in
    let after_one = λ (j v : String). machine_after_put t k u j v s unit unit1 hs hu in
    let after_two = λ (j v : String).
      machine_after_put (put_unit k s u unit1 t) k u j v s1 unit1 (record unit1 { machine = none })
        hs1 hu1 in
    rw e (
      after_one k u ∙ rw (eq_refl k, eq_refl u),
      λ j v apart. after_one j v ∙ elsewhere t k u j v (ok (some m)) apart,
      (
        put_unit k s1 u (record unit1 { machine = none }) (put_unit k s u unit1 t),
        unassign-eq (put_unit k s u unit1 t) k u m s1 unit1 hs1 hu1 refl,
        λ j v. back t k u j v (some m) _ _ (at_first ∙ ap ok free) (after_one j v) (after_two j v),
      ),
    )
