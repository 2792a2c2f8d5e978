-- ===== src/Topology/Version.antt =====
-- juju/state/topology.py, `migrate_topology`: the loop over the migrations.
use trusted_juju.Prelude.{ℕ, suc, zero, ◌≡◌, refl}
use trusted_juju.Topology.State.{Topology, migrate_while, migration_of}

-- No fuel is used, since there is no migration.
migrate_while-fuel :
    (n m version current : ℕ) (t : Topology)
    → migrate_while n version current t ≡ migrate_while m version current t
unfolding migrate_while migration_of
migrate_while-fuel zero zero version current t = refl
migrate_while-fuel zero (suc m) version current t = refl
migrate_while-fuel (suc n) zero version current t = refl
migrate_while-fuel (suc n) (suc m) version current t = refl
