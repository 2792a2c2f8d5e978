-- ===== src/Topology/Memberships.antt =====
-- juju/state/topology.py: which services are in which relations.
use trusted_juju.Prelude.{
  String, ◌≡◌, ◌≢◌, ◌↔◌, refl, ◌∙◌, true, false, none, some, List, [], ◌∷◌, arith, eq_iff, str_eq,
  Option-cases, Bool-cases, inl, inr, ok, raise, if◌then◌else◌, ◌⊎◌, eq_refl,
}
use trusted_juju.Prelude.Dict.{Dict, lookup, has_key, insert, IsDistinct, lookup-insert}
use trusted_juju.Topology.State.{Topology, Relation, Membership, service_in_relations}
use trusted_juju.Topology.Invariant.{IsWellFormed}
use trusted_juju.Topology.Service.{has_service, remove_service, relations_with, is_nil}
use trusted_juju.Topology.Relation.{
  relation_has_service, assign_service_to_relation, get_relation_service, check_members,
}
use trusted_juju.Topology.Keeps.Relations.{check_members-eq-ok}
use trusted_juju.Topology.Keeps.Relations
use trusted_juju.Topology.Keeps.Related.{relations_with-eq-nil}

relations_with-ne-nil :
    (k : String) (relations : Dict Relation)
    → IsDistinct relations
    → is_nil (relations_with k relations) ≡ false
    → (r : String) × (rel : Relation) × (lookup r relations ≡ some rel)
      × (has_key k rel.services ≡ true)
unfolding relations_with lookup
relations_with-ne-nil k [] d h = cc
relations_with-ne-nil k ((r, rel) ∷ relations) d h = elim (Option-cases (lookup k rel.services)) [
  | inl e ↦
      let (r', rel', hr, hk) = relations_with-ne-nil k relations d.1 (ground arith) in
      (r', rel', ground (arith, eq_iff r r'), hk)
  | inr (m, e) ↦ (r, rel, ground (arith, eq_iff r r), rw e)
]

remove_service_refused :
    (t : Topology) (k : String)
    → (remove_service k t ≡ raise (service_in_relations k))
      ↔ ((has_service k t ≡ true) × (is_nil (relations_with k t.relations) ≡ false))
unfolding remove_service has_service
remove_service_refused t k = (λ h. ground arith, λ h. ground arith)

in_relation :
    (t : Topology) (r k : String) (rel : Relation)
    → lookup r t.relations ≡ some rel
    → has_key k rel.services ≡ true
    → relation_has_service r k t ≡ true
unfolding relation_has_service
in_relation t r k rel hr hk = ground arith

relation_of :
    (t : Topology) (r k : String)
    → relation_has_service r k t ≡ true
    → (rel : Relation) × (lookup r t.relations ≡ some rel) × (has_key k rel.services ≡ true)
unfolding relation_has_service
relation_of t r k h = ground arith

is_nil→eq {ℓ} : {A : Type ℓ} (xs : List A) → is_nil xs ≡ true → xs ≡ []
is_nil→eq [] h = refl
is_nil→eq (x ∷ xs) h = cc

-- In a well-formed topology, removing a service is refused for its relations exactly when the
-- service is registered and some relation has it as a member.
pub remove_service_refused_iff :
    (t : Topology) (k : String)
    → IsWellFormed t
    → (remove_service k t ≡ raise (service_in_relations k))
      ↔ ((has_service k t ≡ true) × ((r : String) × (relation_has_service r k t ≡ true)))
remove_service_refused_iff t k w = (
  λ h.
      let (known, some_row) = (remove_service_refused t k).0 h in
      let (r, rel, hr, hk) = relations_with-ne-nil k t.relations w.related.distinct some_row in
      (known, (r, in_relation t r k rel hr hk)),
  λ (known, (r, h)).
      let (rel, hr, hk) = relation_of t r k h in
      (remove_service_refused t k).1 (
        known,
        elim (Bool-cases (is_nil (relations_with k t.relations))) [
          | inl none_found ↦
              let gone = relations_with-eq-nil k r t.relations rel (is_nil→eq _ none_found) hr in
              ground arith
          | inr found ↦ found
        ],
      ),
)

-- The loop passes when nothing stands in the way.
check_members_passes :
    (k role : String) (members : Dict Membership)
    → lookup k members ≡ none
    → ((i : String) (m : Membership) → lookup i members ≡ some m → m.role ≢ role)
    → IsDistinct members
    → check_members k role members ≡ ok tt
unfolding check_members lookup
check_members_passes k role [] h free d = refl
check_members_passes k role ((i, m) ∷ members) h free d =
    let other = free i m (rw (eq_refl i)) in
    let rest =
      check_members_passes k role members (ground (arith, eq_iff i k))
        (λ j x hj e. free j x (ground (arith, eq_iff i j)) e) d.1 in
    ground (arith, eq_iff i k, eq_iff m.role role)

relation_has_service-put :
    (t : Topology) (r r' k : String) (rel : Relation)
    → relation_has_service r' k (record t { relations = insert r rel t.relations })
      ≡ (if str_eq r r' then has_key k rel.services else relation_has_service r' k t)
unfolding relation_has_service
relation_has_service-put t r r' k rel = ground (arith, lookup-insert r r' rel t.relations)

get_relation_service-put :
    (t : Topology) (r k : String) (rel : Relation) (m : Membership)
    → has_key k t.services ≡ true
    → get_relation_service r k (record t {
      relations = insert r (record rel { services = insert k m rel.services }) t.relations;
    })
      ≡ ok (rel.interface, m)
unfolding get_relation_service
get_relation_service-put t r k rel m hk = ground (
  arith,
  eq_iff r r,
  eq_iff k k,
  lookup-insert r r (record rel { services = insert k m rel.services }) t.relations,
  lookup-insert k k m rel.services,
)

has_key-in-relation :
    (t : Topology) (r k : String) (rel : Relation)
    → lookup r t.relations ≡ some rel
    → relation_has_service r k t ≡ has_key k rel.services
unfolding relation_has_service
has_key-in-relation t r k rel hr = ground arith

check_members-absent :
    (k role : String) (members : Dict Membership)
    → check_members k role members ≡ ok tt
    → has_key k members ≡ false
check_members-absent k role members h = elim (Option-cases (lookup k members)) [
  | inl e ↦ rw e
  | inr (m, e) ↦ absurd ((check_members-eq-ok k role k m members h e).0 refl)
]

get_relation_service-other :
    (t : Topology) (r r' k k' : String) (rel : Relation) (m : Membership)
    → lookup r t.relations ≡ some rel
    → (r ≢ r') ⊎ (k ≢ k')
    → get_relation_service r' k' (record t {
      relations = insert r (record rel { services = insert k m rel.services }) t.relations;
    })
      ≡ get_relation_service r' k' t
unfolding get_relation_service
get_relation_service-other t r r' k k' rel m hr apart = ground (
  arith,
  eq_iff r r',
  eq_iff k k',
  lookup-insert r r' (record rel { services = insert k m rel.services }) t.relations,
  lookup-insert k k' m rel.services,
)

untouched :
    (t : Topology) (r r' k k' : String) (rel : Relation) (m : Membership)
    → lookup r t.relations ≡ some rel
    → (r ≢ r') ⊎ (k ≢ k')
    → (if str_eq r r' then has_key k' (insert k m rel.services) else relation_has_service r' k' t)
      ≡ relation_has_service r' k' t
unfolding relation_has_service
untouched t r r' k k' rel m hr apart =
    ground (arith, eq_iff r r', eq_iff k k', lookup-insert k k' m rel.services)

-- A service that is assigned to a relation was not in it before, is then found there with its role
-- and name, and of no other membership does its presence, its role, its name or the relation's
-- interface change.
pub get_relation_service-assign :
    (t t' : Topology) (r k name role : String)
    → assign_service_to_relation r k name role t ≡ ok t'
    → (relation_has_service r k t ≡ false)
      × ((interface : String) × (get_relation_service r k t'
            ≡ ok (interface, record { role = role; name = name })))
      × ((r' k' : String)
          → (r ≢ r') ⊎ (k ≢ k')
          → (relation_has_service r' k' t' ≡ relation_has_service r' k' t)
            × (get_relation_service r' k' t' ≡ get_relation_service r' k' t))
get_relation_service-assign t t' r k name role h =
    let (rel, hr, hk, free, e) = Relations.assign-eq-ok r k t t' name role h in
    let m : Membership = record { role = role; name = name } in
    let rel' : Relation = record rel { services = insert k m rel.services } in
    rw e (
      has_key-in-relation t r k rel hr ∙ check_members-absent k role rel.services free,
      (rel.interface, get_relation_service-put t r k rel m hk),
      λ r' k' apart. (
        relation_has_service-put t r r' k' rel' ∙ untouched t r r' k k' rel m hr apart,
        get_relation_service-other t r r' k k' rel m hr apart,
      ),
    )
