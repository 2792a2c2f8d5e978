-- ===== src/Topology/Keeps/Units.antt =====
-- The operations on service units keep the topology well formed.
use trusted_juju.Prelude.{
  ℕ, ◌+◌, String, ◌≡◌, refl, inl, inr, true, false, Option, none, some, arith, ok,
}
use trusted_juju.Prelude.Dict.{
  lookup, has_key, insert, remove, remove-IsDistinct, insert_cases, lookup_of_remove, any_value,
}
use trusted_juju.Topology.State.{Topology, Service, ServiceUnit}
use trusted_juju.Topology.Invariant.{IsWellFormed}
use trusted_juju.Topology.Member.{
  add_service_unit, remove_service_unit, assign_service_unit_to_machine,
  unassign_service_unit_from_machine, put_unit, has_unit,
}
use trusted_juju.Topology.Keeps.Numbers.{
  shrink-AreSequenced, rehost-AreSequenced, enlist-AreSequenced,
}
use trusted_juju.Topology.Keeps.Hosted.{insert-AreHosted}
use trusted_juju.Topology.Keeps.Related.{add-AreRelated}

module _ (k u : String) (t t' : Topology) where
  pub remove_service_unit-eq-ok :
      remove_service_unit k u t ≡ ok t'
      → (s : Service) × (lookup k t.services ≡ some s)
        × (t' ≡ record t { services = insert k (record s { units = remove u s.units }) t.services })
  unfolding remove_service_unit
  remove_service_unit-eq-ok h = ground arith

  pub assign-eq-ok :
      (m : String)
      → assign_service_unit_to_machine k u m t ≡ ok t'
      → (s : Service) × (unit : ServiceUnit) × (lookup k t.services ≡ some s)
        × (lookup u s.units ≡ some unit)
        × (unit.machine ≡ none)
        × (has_key m t.machines ≡ true)
        × (t' ≡ put_unit k s u (record unit { machine = some m }) t)
  unfolding assign_service_unit_to_machine
  assign-eq-ok m h = ground arith

  pub unassign-eq-ok :
      unassign_service_unit_from_machine k u t ≡ ok t'
      → (s : Service) × (unit : ServiceUnit) × (lookup k t.services ≡ some s)
        × (lookup u s.units ≡ some unit)
        × (t' ≡ put_unit k s u (record unit { machine = none }) t)
  unfolding unassign_service_unit_from_machine
  unassign-eq-ok h = ground arith

  pub add_service_unit-eq-ok :
      (c : Option String) (n : ℕ)
      → add_service_unit k u c t ≡ ok (t', n)
      → (s : Service) × (lookup k t.services ≡ some s)
        × (any_value (has_unit u) t.services ≡ false)
        × (lookup s.name t.unit_sequence ≡ some n)
        × (t' ≡ record t {
          services =
              insert k
                (record s {
                  units = insert u (record { sequence = n; container = c; machine = none }) s.units;
                })
                t.services;
          unit_sequence = insert s.name (n + 1) t.unit_sequence;
        })
  unfolding add_service_unit
  add_service_unit-eq-ok c n h = ground arith

pub remove_service_unit-IsWellFormed :
    (k u : String) (t t' : Topology)
    → remove_service_unit k u t ≡ ok t'
    → IsWellFormed t
    → IsWellFormed t'
remove_service_unit-IsWellFormed k u t t' h w =
    let (s, hs, e) = remove_service_unit-eq-ok k u t t' h in
    rw e (record {
      sequenced =
          shrink-AreSequenced w.sequenced k s (remove u s.units) hs
            (remove-IsDistinct u s.units (w.sequenced.units_distinct k s hs))
            (λ v x hv. (x, (lookup_of_remove u v x s.units hv).1, refl));
      hosted =
          insert-AreHosted w.hosted k (record s { units = remove u s.units })
            (λ v m x hv. w.hosted.hosted k v m s x hs (lookup_of_remove u v x s.units hv).1);
      related = add-AreRelated w.related k (record s { units = remove u s.units });
    })

-- What `put_unit` needs of the unit that it writes over an old one.
put_unit-IsWellFormed :
    (k u : String) (s : Service) (unit unit' : ServiceUnit) (t : Topology)
    → lookup k t.services ≡ some s
    → lookup u s.units ≡ some unit
    → unit.sequence ≡ unit'.sequence
    → ((m : String) → unit'.machine ≡ some m → has_key m t.machines ≡ true)
    → IsWellFormed t
    → IsWellFormed (put_unit k s u unit' t)
put_unit-IsWellFormed k u s unit unit' t hs hu same fits w = record {
  sequenced = rehost-AreSequenced w.sequenced k u s unit unit' hs hu same;
  hosted =
      insert-AreHosted w.hosted k (record s { units = insert u unit' s.units })
        (λ v m x hv hm. elim (insert_cases u v unit' x s.units hv) [
          | inl (_, ex) ↦ fits m (rw (← ex) at hm)
          | inr (_, hx) ↦ w.hosted.hosted k v m s x hs hx hm
        ]);
  related = add-AreRelated w.related k (record s { units = insert u unit' s.units });
}

pub assign_service_unit_to_machine-IsWellFormed :
    (k u m : String) (t t' : Topology)
    → assign_service_unit_to_machine k u m t ≡ ok t'
    → IsWellFormed t
    → IsWellFormed t'
assign_service_unit_to_machine-IsWellFormed k u m t t' h w =
    let (s, unit, hs, hu, _, hm, e) = assign-eq-ok k u t t' m h in
    rw e (
      put_unit-IsWellFormed k u s unit (record unit { machine = some m }) t hs hu refl
        (λ m' e'. ground arith) w)

pub unassign_service_unit_from_machine-IsWellFormed :
    (k u : String) (t t' : Topology)
    → unassign_service_unit_from_machine k u t ≡ ok t'
    → IsWellFormed t
    → IsWellFormed t'
unassign_service_unit_from_machine-IsWellFormed k u t t' h w =
    let (s, unit, hs, hu, e) = unassign-eq-ok k u t t' h in
    rw e (
      put_unit-IsWellFormed k u s unit (record unit { machine = none }) t hs hu refl (λ m' e'. cc)
        w)

pub add_service_unit-IsWellFormed :
    (k u : String) (c : Option String) (n : ℕ) (t t' : Topology)
    → add_service_unit k u c t ≡ ok (t', n)
    → IsWellFormed t
    → IsWellFormed t'
add_service_unit-IsWellFormed k u c n t t' h w =
    let (s, hs, fresh, hn, e) = add_service_unit-eq-ok k u t t' c n h in
    let new : ServiceUnit = record { sequence = n; container = c; machine = none } in
    rw e (record {
      sequenced = enlist-AreSequenced k u s new hs hn fresh w.sequenced;
      hosted =
          insert-AreHosted w.hosted k (record s { units = insert u new s.units })
            (λ v m x hv hm. elim (insert_cases u v new x s.units hv) [
              | inl (_, ex) ↦ cc (ex, hm)
              | inr (_, hx) ↦ w.hosted.hosted k v m s x hs hx hm
            ]);
      related = add-AreRelated w.related k (record s { units = insert u new s.units });
    })
