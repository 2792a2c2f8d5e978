-- ===== src/Topology/Keeps/Operations.antt =====
-- Each mutating operation of the topology, where it does not raise, keeps it well formed.
use trusted_juju.Prelude.{
  ℕ, String, ◌≡◌, inl, inr, false, some, [], arith, eq_iff, ok, Option-cases,
}
use trusted_juju.Prelude.Dict.{
  Dict, lookup, has_key, insert, remove, lookup-empty, lookup-insert, any_value, any_value-eq-false,
}
use trusted_juju.Topology.State.{Topology, Service, ServiceUnit}
use trusted_juju.Topology.Invariant.{AreSequenced, IsWellFormed}
use trusted_juju.Topology.Machine.{add_machine, remove_machine, some_unit_on}
use trusted_juju.Topology.Service.{
  add_service, remove_service, is_named, default_sequence, relations_with,
}
use trusted_juju.Topology.Keeps.Sequenced.{
  remove-AreSequenced, grow-AreSequenced, insert-AreSequenced,
}
use trusted_juju.Topology.Keeps.Hosted.{
  remove-AreHosted, insert-AreHosted, add-AreHosted, drop-AreHosted,
}
use trusted_juju.Topology.Keeps.Related.{add-AreRelated, drop-AreRelated}

pub add_machine-eq-ok :
    (m : String) (t t' : Topology)
    → add_machine m t ≡ ok t'
    → t' ≡ record t { machines = insert m tt t.machines }
unfolding add_machine
add_machine-eq-ok m t t' h = ground arith

pub add_machine-IsWellFormed :
    (m : String) (t t' : Topology) → add_machine m t ≡ ok t' → IsWellFormed t → IsWellFormed t'
add_machine-IsWellFormed m t t' h w =
    rw (add_machine-eq-ok m t t' h)
      (record { sequenced = w.sequenced; hosted = add-AreHosted w.hosted m; related = w.related })

pub remove_machine-eq-ok :
    (m : String) (t t' : Topology)
    → remove_machine m t ≡ ok t'
    → (some_unit_on m t.services ≡ false) × (t' ≡ record t { machines = remove m t.machines })
unfolding remove_machine
remove_machine-eq-ok m t t' h = ground arith

pub remove_machine-IsWellFormed :
    (m : String) (t t' : Topology) → remove_machine m t ≡ ok t' → IsWellFormed t → IsWellFormed t'
remove_machine-IsWellFormed m t t' h w =
    let (free, e) = remove_machine-eq-ok m t t' h in
    rw e (record {
      sequenced = w.sequenced;
      hosted = drop-AreHosted w.hosted m free;
      related = w.related;
    })

pub add_service-eq-ok :
    (k n : String) (t t' : Topology)
    → add_service k n t ≡ ok t'
    → (has_key k t.services ≡ false)
      × (any_value (is_named n) t.services ≡ false)
      × (t' ≡ record t {
        services = insert k (record { name = n; units = [] }) t.services;
        unit_sequence = default_sequence n t.unit_sequence;
      })
unfolding add_service
add_service-eq-ok k n t t' h = ground arith

pub remove_service-eq-ok :
    (k : String) (t t' : Topology)
    → remove_service k t ≡ ok t'
    → (relations_with k t.relations ≡ []) × (t' ≡ record t { services = remove k t.services })
unfolding remove_service
remove_service-eq-ok k t t' h = ground arith

pub remove_service-IsWellFormed :
    (k : String) (t t' : Topology) → remove_service k t ≡ ok t' → IsWellFormed t → IsWellFormed t'
remove_service-IsWellFormed k t t' h w =
    let (free, e) = remove_service-eq-ok k t t' h in
    rw e (record {
      sequenced = remove-AreSequenced w.sequenced k;
      hosted = remove-AreHosted w.hosted k;
      related = drop-AreRelated w.related k free;
    })

-- The sequences grow by a fresh name at most.
default-AreSequenced :
    {services : Dict Service} {sequences : Dict ℕ} (n : String)
    → AreSequenced services sequences
    → AreSequenced services (default_sequence n sequences)
default-AreSequenced {sequences = sequences} n w =
    grow-AreSequenced w (default_sequence n sequences) (λ i s m h hm.
      (m, ground (arith, lookup-insert n s.name 0 sequences, eq_iff n s.name), omega arith))

has-default_sequence :
    (n : String) (sequences : Dict ℕ) → (m : ℕ) × (lookup n (default_sequence n sequences) ≡ some m)
has-default_sequence n sequences = elim (Option-cases (lookup n sequences)) [
  | inl e ↦ (0, ground (arith, lookup-insert n n 0 sequences, eq_iff n n))
  | inr (m, e) ↦ (m, ground arith)
]

pub add_service-IsWellFormed :
    (k n : String) (t t' : Topology) → add_service k n t ≡ ok t' → IsWellFormed t → IsWellFormed t'
add_service-IsWellFormed k n t t' h w =
    let (_, free, e) = add_service-eq-ok k n t t' h in
    let s : Service = record { name = n; units = [] } in
    let (m, hm) = has-default_sequence n t.unit_sequence in
    rw e (record {
      sequenced =
          insert-AreSequenced (default-AreSequenced n w.sequenced) k s tt
            (λ j r _ hr e.
              ground
                (arith, any_value-eq-false (is_named n) t.services j r free hr, eq_iff r.name n))
            (m, hm, λ u x hx. absurd (not_in_empty u x hx))
            (λ u v x y hu hv _. absurd (not_in_empty u x hu))
            (λ j u r x y _ _ hu _. not_in_empty u x hu);
      hosted = insert-AreHosted w.hosted k s (λ u m x hu _. absurd (not_in_empty u x hu));
      related = add-AreRelated w.related k s;
    })
  where
    not_in_empty : (u : String) (x : ServiceUnit) → lookup u [] ≡ some x → ⊥
    not_in_empty u x h = lookup-empty u x h
