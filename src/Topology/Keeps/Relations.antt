-- ===== src/Topology/Keeps/Relations.antt =====
-- The operations on relations keep the topology well formed.
use trusted_juju.Prelude.{
  String, ◌≡◌, ◌≢◌, inl, inr, true, some, [], ◌∷◌, arith, eq_iff, sym, ◌∙◌, ok,
}
use trusted_juju.Prelude.Dict.{
  Dict, lookup, has_key, insert, remove, lookup-empty, insert_cases, lookup_of_remove,
}
use trusted_juju.Topology.State.{Topology, Relation, Membership}
use trusted_juju.Topology.Invariant.{IsWellFormed}
use trusted_juju.Topology.Relation.{
  add_relation, remove_relation, check_members, assign_service_to_relation,
  unassign_service_from_relation,
}
use trusted_juju.Topology.Keeps.Related.{remove-AreRelated, insert-AreRelated}

-- Where the loop does not raise, no member is the service or has the role.
pub check_members-eq-ok :
    (k role i : String) (m : Membership) (members : Dict Membership)
    → check_members k role members ≡ ok tt
    → lookup i members ≡ some m
    → (k ≢ i) × (m.role ≢ role)
unfolding check_members lookup
check_members-eq-ok k role i m [] h e = ground arith
check_members-eq-ok k role i m ((j, x) ∷ members) h e =
    ground
      (arith, eq_iff j k, eq_iff j i, eq_iff x.role role, check_members-eq-ok k role i m members)

module _ (r k : String) (t t' : Topology) where
  pub add_relation-eq-ok :
      (interface scope : String)
      → add_relation r interface scope t ≡ ok t'
      → t' ≡ record t {
        relations =
            insert r (record { interface = interface; scope = scope; services = [] }) t.relations;
      }
  unfolding add_relation
  add_relation-eq-ok interface scope h = ground arith

  pub remove_relation-eq-ok :
      remove_relation r t ≡ ok t' → t' ≡ record t { relations = remove r t.relations }
  unfolding remove_relation
  remove_relation-eq-ok h = ground arith

  pub assign-eq-ok :
      (name role : String)
      → assign_service_to_relation r k name role t ≡ ok t'
      → (rel : Relation) × (lookup r t.relations ≡ some rel)
        × (has_key k t.services ≡ true)
        × (check_members k role rel.services ≡ ok tt)
        × (t' ≡ record t {
          relations =
              insert r
                (record rel {
                  services = insert k (record { role = role; name = name }) rel.services;
                })
                t.relations;
        })
  unfolding assign_service_to_relation
  assign-eq-ok name role h = ground arith

  pub unassign-eq-ok :
      unassign_service_from_relation r k t ≡ ok t'
      → (rel : Relation) × (lookup r t.relations ≡ some rel)
        × (t' ≡ record t {
          relations = insert r (record rel { services = remove k rel.services }) t.relations;
        })
  unfolding unassign_service_from_relation
  unassign-eq-ok h = ground arith

pub add_relation-IsWellFormed :
    (r interface scope : String) (t t' : Topology)
    → add_relation r interface scope t ≡ ok t'
    → IsWellFormed t
    → IsWellFormed t'
add_relation-IsWellFormed r interface scope t t' h w =
    rw (add_relation-eq-ok r r t t' interface scope h) (record {
      sequenced = w.sequenced;
      hosted = w.hosted;
      related =
          insert-AreRelated w.related r
            (record { interface = interface; scope = scope; services = [] })
            (λ i m e. absurd (lookup-empty i m e)) (λ i j m m' e _ _. absurd (lookup-empty i m e));
    })

pub remove_relation-IsWellFormed :
    (r : String) (t t' : Topology) → remove_relation r t ≡ ok t' → IsWellFormed t → IsWellFormed t'
remove_relation-IsWellFormed r t t' h w =
    rw (remove_relation-eq-ok r r t t' h) (record {
      sequenced = w.sequenced;
      hosted = w.hosted;
      related = remove-AreRelated w.related r;
    })

pub assign_service_to_relation-IsWellFormed :
    (r k name role : String) (t t' : Topology)
    → assign_service_to_relation r k name role t ≡ ok t'
    → IsWellFormed t
    → IsWellFormed t'
assign_service_to_relation-IsWellFormed r k name role t t' h w =
    let (rel, hr, hk, free, e) = assign-eq-ok r k t t' name role h in
    let new : Membership = record { role = role; name = name } in
    let apart = λ (i : String) (m : Membership) (hi : lookup i rel.services ≡ some m).
      check_members-eq-ok k role i m rel.services free hi in
    rw e (record {
      sequenced = w.sequenced;
      hosted = w.hosted;
      related =
          insert-AreRelated w.related r (record rel { services = insert k new rel.services })
            (λ i m hi. elim (insert_cases k i new m rel.services hi) [
              | inl (ki, _) ↦ rw (← ki) hk
              | inr (_, hm) ↦ w.related.known r i rel m hr hm
            ])
            (λ i j m m' hi hj same. elim (insert_cases k i new m rel.services hi) [
              | inl (ki, em) ↦ elim (insert_cases k j new m' rel.services hj) [
                | inl (kj, _) ↦ sym ki ∙ kj
                | inr (_, hm') ↦ absurd ((apart j m' hm').1 (cc))
              ]
              | inr (_, hm) ↦ elim (insert_cases k j new m' rel.services hj) [
                | inl (_, em') ↦ absurd ((apart i m hm).1 (cc))
                | inr (_, hm') ↦ w.related.roles_unique r i j rel m m' hr hm hm' same
              ]
            ]);
    })

pub unassign_service_from_relation-IsWellFormed :
    (r k : String) (t t' : Topology)
    → unassign_service_from_relation r k t ≡ ok t'
    → IsWellFormed t
    → IsWellFormed t'
unassign_service_from_relation-IsWellFormed r k t t' h w =
    let (rel, hr, e) = unassign-eq-ok r k t t' h in
    rw e (record {
      sequenced = w.sequenced;
      hosted = w.hosted;
      related =
          insert-AreRelated w.related r (record rel { services = remove k rel.services })
            (λ i m hi. w.related.known r i rel m hr (lookup_of_remove k i m rel.services hi).1)
            (λ i j m m' hi hj.
              w.related.roles_unique r i j rel m m' hr (lookup_of_remove k i m rel.services hi).1
                (lookup_of_remove k j m' rel.services hj).1);
    })
