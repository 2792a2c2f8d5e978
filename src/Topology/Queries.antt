-- ===== src/Topology/Queries.antt =====
-- juju/state/topology.py: what the searches of the topology find, in a well-formed topology.
use trusted_juju.Prelude.{
  ℕ, String, ◌≡◌, ◌↔◌, sym, ◌∙◌, true, some, arith, eq_iff, ok, ◌==◌, ==_iff,
}
use trusted_juju.Prelude.Dict.{lookup, find_key, find_key-eq-some, find_key_of_unique}
use trusted_juju.Topology.State.{Topology, Service, ServiceUnit}
use trusted_juju.Topology.Invariant.{IsWellFormed}
use trusted_juju.Topology.Service.{find_service_with_name, get_service_name, is_named}
use trusted_juju.Topology.Member.{
  has_unit, get_service_unit_service, find_service_unit_with_sequence, get_service_unit_sequence,
  has_service_unit,
}

-- In a well-formed topology the service found by a name is the one that has the name, and one is
-- found if any has it.
pub find_service_with_name_iff :
    (t : Topology) (name k : String)
    → IsWellFormed t
    → (find_service_with_name name t ≡ some k) ↔ (get_service_name k t ≡ ok name)
unfolding find_service_with_name get_service_name
find_service_with_name_iff t name k w = (
  λ h.
      let (s, hs, e) = find_key-eq-some (is_named name) t.services k w.sequenced.distinct h in
      ground (arith, eq_iff s.name name),
  λ h.
      let (s, hs, e) = named k h in
      find_key_of_unique (is_named name) t.services k s w.sequenced.distinct hs
        ((eq_iff s.name name).1 e)
        (λ j r hr same.
          w.sequenced.names_unique j k r s hr hs ((eq_iff r.name name).0 same ∙ sym e)),
)
  where
    named :
        (k : String)
        → get_service_name k t ≡ ok name
        → (s : Service) × (lookup k t.services ≡ some s) × (s.name ≡ name)
    named k h = ground arith

get_service_unit_service-eq :
    (t : Topology) (u k : String)
    → find_key (has_unit u) t.services ≡ some k
    → get_service_unit_service u t ≡ ok k
unfolding get_service_unit_service
get_service_unit_service-eq t u k h = ground arith

find_service_unit_with_sequence-eq :
    (t : Topology) (k u : String) (n : ℕ) (s : Service)
    → lookup k t.services ≡ some s
    → find_key (λ (x : ServiceUnit). x.sequence == n) s.units ≡ some u
    → find_service_unit_with_sequence k n t ≡ ok (some u)
unfolding find_service_unit_with_sequence
find_service_unit_with_sequence-eq t k u n s hs h = ground arith

has_service_unit-eq :
    (t : Topology) (k u : String) (s : Service)
    → lookup k t.services ≡ some s
    → has_unit u s ≡ true
    → has_service_unit k u t ≡ ok true
unfolding has_service_unit
has_service_unit-eq t k u s hs e = ground arith

-- In a well-formed topology the service that is found for a unit is the one that has the unit, and
-- one is found if any has it.
pub get_service_unit_service_iff :
    (t : Topology) (u k : String)
    → IsWellFormed t
    → (get_service_unit_service u t ≡ ok k) ↔ (has_service_unit k u t ≡ ok true)
unfolding get_service_unit_service has_service_unit
get_service_unit_service_iff t u k w = (
  λ h.
      let (s, hs, e) = find_key-eq-some (has_unit u) t.services k w.sequenced.distinct (found h) in
      has_service_unit-eq t k u s hs e,
  λ h.
      let (s, unit, hs, hu) = has k h in
      let only =
        find_key_of_unique (has_unit u) t.services k s w.sequenced.distinct hs (rw hu) (λ j r hr e'.
          let (x, hx) = unit_of r e' in w.sequenced.units_unique j k u r s x unit hr hs hx hu) in
      get_service_unit_service-eq t u k only,
)
  where
    found : get_service_unit_service u t ≡ ok k → find_key (has_unit u) t.services ≡ some k
    found h = ground arith

    has :
        (k : String)
        → has_service_unit k u t ≡ ok true
        → (s : Service) × (unit : ServiceUnit) × (lookup k t.services ≡ some s)
          × (lookup u s.units ≡ some unit)
    has k h = ground arith

    unit_of : (r : Service) → has_unit u r ≡ true → (x : ServiceUnit) × (lookup u r.units ≡ some x)
    unit_of r h = ground arith

-- In a well-formed topology a unit's sequence number finds the unit again in its service.
pub find_service_unit_with_sequence_lem :
    (t : Topology) (k u : String) (n : ℕ)
    → IsWellFormed t
    → get_service_unit_sequence k u t ≡ ok n
    → find_service_unit_with_sequence k n t ≡ ok (some u)
unfolding find_service_unit_with_sequence get_service_unit_sequence
find_service_unit_with_sequence_lem t k u n w h =
    let (s, unit, hs, hu, e) = unit_of h in
    let found =
      find_key_of_unique (λ (x : ServiceUnit). x.sequence == n) s.units u unit
        (w.sequenced.units_distinct k s hs) hu ((==_iff unit.sequence n).1 e)
        (λ v x hx e'.
          w.sequenced.sequences_unique k v u s x unit hs hx hu
            ((==_iff x.sequence n).0 e' ∙ sym e)) in
    find_service_unit_with_sequence-eq t k u n s hs found
  where
    unit_of :
        get_service_unit_sequence k u t ≡ ok n
        → (s : Service) × (unit : ServiceUnit) × (lookup k t.services ≡ some s)
          × (lookup u s.units ≡ some unit)
          × (unit.sequence ≡ n)
    unit_of h = ground arith
