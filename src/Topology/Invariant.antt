-- ===== src/Topology/Invariant.antt =====
-- The well-formedness of a topology, in three parts that each read two of its dicts.
use trusted_juju.Prelude.{ℕ, ◌<◌, String, ◌≡◌, some, true}
use trusted_juju.Prelude.Dict.{Dict, lookup, has_key, IsDistinct}
use trusted_juju.Topology.State.{Topology, Service, ServiceUnit, Relation, Membership}

-- Every unit of the service has a sequence number below `n`.
abbrev pub IsBelow : ℕ → Service → Type 0
IsBelow n s = (u : String) (unit : ServiceUnit) → lookup u s.units ≡ some unit → unit.sequence < n

-- Names, unit ids and sequence numbers are unique, and the counter of a name is above all numbers
-- that its service has given out.
pub record AreSequenced (services : Dict Service) (sequences : Dict ℕ) : Type 0 where
  pub distinct : IsDistinct services
  pub units_distinct : (i : String) (s : Service) → lookup i services ≡ some s → IsDistinct s.units
  pub names_unique :
      (i j : String) (s s' : Service)
      → lookup i services ≡ some s
      → lookup j services ≡ some s'
      → s.name ≡ s'.name
      → i ≡ j
  pub counted :
      (i : String) (s : Service)
      → lookup i services ≡ some s
      → (n : ℕ) × (lookup s.name sequences ≡ some n) × IsBelow n s
  pub sequences_unique :
      (i u v : String) (s : Service) (unit unit' : ServiceUnit)
      → lookup i services ≡ some s
      → lookup u s.units ≡ some unit
      → lookup v s.units ≡ some unit'
      → unit.sequence ≡ unit'.sequence
      → u ≡ v
  pub units_unique :
      (i j u : String) (s s' : Service) (unit unit' : ServiceUnit)
      → lookup i services ≡ some s
      → lookup j services ≡ some s'
      → lookup u s.units ≡ some unit
      → lookup u s'.units ≡ some unit'
      → i ≡ j

-- A unit is assigned to a registered machine only.
pub record AreHosted (services : Dict Service) (machines : Dict (Unit {0})) : Type 0 where
  pub hosted :
      (i u m : String) (s : Service) (unit : ServiceUnit)
      → lookup i services ≡ some s
      → lookup u s.units ≡ some unit
      → unit.machine ≡ some m
      → has_key m machines ≡ true

-- A relation joins registered services, each in a role of its own.
pub record AreRelated (services : Dict Service) (relations : Dict Relation) : Type 0 where
  pub distinct : IsDistinct relations
  pub known :
      (r i : String) (rel : Relation) (m : Membership)
      → lookup r relations ≡ some rel
      → lookup i rel.services ≡ some m
      → has_key i services ≡ true
  pub roles_unique :
      (r i j : String) (rel : Relation) (m m' : Membership)
      → lookup r relations ≡ some rel
      → lookup i rel.services ≡ some m
      → lookup j rel.services ≡ some m'
      → m.role ≡ m'.role
      → i ≡ j

pub record IsWellFormed (t : Topology) : Type 0 where
  pub sequenced : AreSequenced t.services t.unit_sequence
  pub hosted : AreHosted t.services t.machines
  pub related : AreRelated t.services t.relations
