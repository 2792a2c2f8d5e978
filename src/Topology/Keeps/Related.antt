-- ===== src/Topology/Keeps/Related.antt =====
-- The members of the relations, under the changes to the services and the relations.
use trusted_juju.Prelude.{String, ◌≡◌, inl, inr, true, none, some, [], ◌∷◌, arith, eq_iff}
use trusted_juju.Prelude.Dict.{
  insert-IsDistinct, remove-IsDistinct, Dict, lookup, has_key, insert, remove, lookup-insert,
  lookup-remove, insert_cases, lookup_of_remove,
}
use trusted_juju.Topology.State.{Service, Relation, Membership}
use trusted_juju.Topology.Service.{relations_with}
use trusted_juju.Topology.Invariant.{AreRelated}

-- Where no row is found, no relation has the service.
pub relations_with-eq-nil :
    (k r : String) (relations : Dict Relation) (rel : Relation)
    → relations_with k relations ≡ []
    → lookup r relations ≡ some rel
    → lookup k rel.services ≡ none
unfolding relations_with lookup
relations_with-eq-nil k r [] rel h e = ground arith
relations_with-eq-nil k r ((i, x) ∷ relations) rel h e =
    ground (arith, relations_with-eq-nil k r relations rel)

module _ {services : Dict Service} {relations : Dict Relation}
    (w : AreRelated services relations) where
  pub add-AreRelated : (k : String) (s : Service) → AreRelated (insert k s services) relations
  add-AreRelated k s = record {
    distinct = w.distinct;
    known = λ r i rel m h e. ground (arith, w.known r i rel m h e, lookup-insert k i s services);
    roles_unique = w.roles_unique;
  }

  pub drop-AreRelated :
      (k : String) → relations_with k relations ≡ [] → AreRelated (remove k services) relations
  drop-AreRelated k free = record {
    distinct = w.distinct;
    known = λ r i rel m h e. ground (
      arith,
      w.known r i rel m h e,
      relations_with-eq-nil k r relations rel free h,
      lookup-remove k i services,
      eq_iff k i,
    );
    roles_unique = w.roles_unique;
  }

  pub remove-AreRelated : (k : String) → AreRelated services (remove k relations)
  remove-AreRelated k = record {
    distinct = remove-IsDistinct k relations w.distinct;
    known = λ r i rel m h. w.known r i rel m (lookup_of_remove k r rel relations h).1;
    roles_unique =
        λ r i j rel m m' h. w.roles_unique r i j rel m m' (lookup_of_remove k r rel relations h).1;
  }

  pub insert-AreRelated :
      (k : String) (rel' : Relation)
      → ((i : String) (m : Membership)
          → lookup i rel'.services ≡ some m
          → has_key i services ≡ true)
      → ((i j : String) (m m' : Membership)
          → lookup i rel'.services ≡ some m
          → lookup j rel'.services ≡ some m'
          → m.role ≡ m'.role
          → i ≡ j)
      → AreRelated services (insert k rel' relations)
  insert-AreRelated k rel' known roles = record {
    distinct = insert-IsDistinct k rel' relations w.distinct;
    known = λ r i rel m h. elim (insert_cases k r rel' rel relations h) [
      | inl (_, e) ↦ rw (← e) (known i m)
      | inr (_, h') ↦ w.known r i rel m h'
    ];
    roles_unique = λ r i j rel m m' h. elim (insert_cases k r rel' rel relations h) [
      | inl (_, e) ↦ rw (← e) (roles i j m m')
      | inr (_, h') ↦ w.roles_unique r i j rel m m' h'
    ];
  }
