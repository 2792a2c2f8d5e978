-- ===== src/Topology/Keeps/Hosted.antt =====
-- The machines of the units, under the changes to the services and the machines.
use trusted_juju.Prelude.{String, ◌≡◌, inl, inr, true, false, some, arith, eq_iff}
use trusted_juju.Prelude.Dict.{
  Dict, lookup, has_key, insert, remove, lookup-insert, lookup-remove, insert_cases,
  lookup_of_remove, any_value, any_value-eq-false,
}
use trusted_juju.Topology.State.{Service, ServiceUnit}
use trusted_juju.Topology.Invariant.{AreHosted}
use trusted_juju.Topology.Machine.{some_unit_on, is_on}

module _ {services : Dict Service} {machines : Dict (Unit {0})}
    (w : AreHosted services machines) where
  pub remove-AreHosted : (k : String) → AreHosted (remove k services) machines
  remove-AreHosted k = record {
    hosted = λ i u m s unit h. w.hosted i u m s unit (lookup_of_remove k i s services h).1;
  }

  pub insert-AreHosted :
      (k : String) (s' : Service)
      → ((u m : String) (unit : ServiceUnit)
          → lookup u s'.units ≡ some unit
          → unit.machine ≡ some m
          → has_key m machines ≡ true)
      → AreHosted (insert k s' services) machines
  insert-AreHosted k s' fits = record {
    hosted = λ i u m s unit h. elim (insert_cases k i s' s services h) [
      | inl (_, e) ↦ rw (← e) (fits u m unit)
      | inr (_, h') ↦ w.hosted i u m s unit h'
    ];
  }

  pub add-AreHosted : (k : String) → AreHosted services (insert k tt machines)
  add-AreHosted k = record {
    hosted = λ i u m s unit h hu hm.
        ground (arith, w.hosted i u m s unit h hu hm, lookup-insert k m tt machines);
  }

  -- A machine that no unit is on can go.
  pub drop-AreHosted :
      (k : String) → some_unit_on k services ≡ false → AreHosted services (remove k machines)
  unfolding some_unit_on
  drop-AreHosted k free = record {
    hosted = λ i u m s unit h hu hm.
        let idle =
          any_value-eq-false (λ (s : Service). any_value (is_on k) s.units) services i s free h in
        let off = any_value-eq-false (is_on k) s.units u unit idle hu in
        ground (
          arith,
          off,
          eq_iff m k,
          eq_iff k m,
          w.hosted i u m s unit h hu hm,
          lookup-remove k m machines,
        );
  }
