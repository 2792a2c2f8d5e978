-- ===== src/Topology/Endpoints.antt =====
-- juju/state/endpoint.py and the searches by endpoints: what they find.
use trusted_juju.Prelude.{
  String, ◌≡◌, refl, true, false, Option, none, some, List, [], ◌∷◌, arith, eq_iff, str_eq, ok, inl,
  inr, Bool-cases, Option-cases, ap, sym, ◌⊎◌, ◌∙◌, All, both_of_&&,
}
use trusted_juju.Prelude.Dict.{Dict, lookup, IsDistinct}
use trusted_juju.Topology.State.{Topology, Relation, Membership}
use trusted_juju.Topology.Service.{find_service_with_name}
use trusted_juju.Topology.Invariant.{IsWellFormed}
use trusted_juju.Topology.Endpoint.{
  RelationEndpoint, may_relate_to, membership_of, joins, all_join, find_between,
  get_relation_between_endpoints,
}

-- Whether two endpoints may be related does not depend on their order.
pub may_relate_to_comm : (a b : RelationEndpoint) → may_relate_to a b ≡ may_relate_to b a
unfolding may_relate_to
may_relate_to_comm a b =
    ground (arith, eq_iff a.relation_type b.relation_type, eq_iff b.relation_type a.relation_type)

-- The service of an endpoint's name is a member of the relation under the endpoint's relation name.
abbrev pub IsIn : Topology → Relation → RelationEndpoint → Type 0
IsIn t rel e =
    (service_id : String) × (m : Membership) × (find_service_with_name e.service_name t
      ≡ some service_id)
    × (lookup service_id rel.services ≡ some m)
    × (m.name ≡ e.relation_name)

joins-IsIn :
    (t : Topology) (rel : Relation) (e : RelationEndpoint) → joins t e rel ≡ true → IsIn t rel e
unfolding joins membership_of
joins-IsIn t rel e h = elim (Option-cases (find_service_with_name e.service_name t)) [
  | inl a ↦ absurd (false_true (ground arith))
  | inr (service_id, a) ↦ elim (Option-cases (lookup service_id rel.services)) [
    | inl b ↦ absurd (false_true (ground arith))
    | inr (m, b) ↦ (service_id, m, a, b, ground (arith, eq_iff m.name e.relation_name))
  ]
]
  where
    false_true : false ≡ true → ⊥
    false_true p = cc

joins-of_IsIn :
    (t : Topology) (rel : Relation) (e : RelationEndpoint) → IsIn t rel e → joins t e rel ≡ true
unfolding joins membership_of
joins-of_IsIn t rel e (service_id, m, a, b, c) = ground (arith, eq_iff m.name e.relation_name)

all_join-IsIn :
    (t : Topology) (rel : Relation) (es : List RelationEndpoint)
    → all_join t es rel ≡ true
    → All (IsIn t rel) es
unfolding all_join
all_join-IsIn t rel [] h = tt
all_join-IsIn t rel (e ∷ es) h =
    let (a, b) = both_of_&& (joins t e rel) (all_join t es rel) h in
    (joins-IsIn t rel e a, all_join-IsIn t rel es b)

all_join-of_IsIn :
    (t : Topology) (rel : Relation) (es : List RelationEndpoint)
    → All (IsIn t rel) es
    → all_join t es rel ≡ true
unfolding all_join
all_join-of_IsIn t rel [] h = refl
all_join-of_IsIn t rel (e ∷ es) h = rw (joins-of_IsIn t rel e h.0) (all_join-of_IsIn t rel es h.1)

none_joins :
    (t : Topology) (rel : Relation) (es : List RelationEndpoint)
    → all_join t es rel ≡ false
    → ¬ All (IsIn t rel) es
none_joins t rel es h all = true_false (sym (all_join-of_IsIn t rel es all) ∙ h)
  where
    true_false : true ≡ false → ⊥
    true_false p = cc

module _ (t : Topology) (e : RelationEndpoint) (endpoints : List RelationEndpoint) where
  find_between_cases :
      (r i : String) (x : Relation) (relations : Dict Relation)
      → find_between t (e ∷ endpoints) ((i, x) ∷ relations) ≡ ok (some r)
      → (x.interface ≡ e.relation_type) × (all_join t (e ∷ endpoints) x ≡ true) × (i ≡ r)
        ⊎ (find_between t (e ∷ endpoints) relations ≡ ok (some r))
  unfolding find_between
  find_between_cases r i x relations h = ground (arith, eq_iff x.interface e.relation_type)

  find_between_sound :
      (r : String) (relations : Dict Relation)
      → IsDistinct relations
      → find_between t (e ∷ endpoints) relations ≡ ok (some r)
      → (rel : Relation) × (lookup r relations ≡ some rel)
        × (rel.interface ≡ e.relation_type)
        × (all_join t (e ∷ endpoints) rel ≡ true)
  unfolding find_between lookup
  find_between_sound r [] d h = absurd (cc)
  find_between_sound r ((i, x) ∷ relations) d h = elim (find_between_cases r i x relations h) [
    | inl (same, all, here) ↦ (x, ground (arith, eq_iff i r), same, all)
    | inr later ↦
        let (rel, hr, same, all) = find_between_sound r relations d.1 later in
        (rel, ground (arith, eq_iff i r), same, all)
  ]

  find_between_complete :
      (r : String) (rel : Relation) (relations : Dict Relation)
      → find_between t (e ∷ endpoints) relations ≡ ok none
      → lookup r relations ≡ some rel
      → rel.interface ≡ e.relation_type
      → all_join t (e ∷ endpoints) rel ≡ false
  unfolding find_between lookup
  find_between_complete r rel [] h hr same = absurd (cc)
  find_between_complete r rel ((i, x) ∷ relations) h hr same =
      ground (
        arith,
        eq_iff i r,
        eq_iff x.interface e.relation_type,
        find_between_complete r rel relations,
      )

  find_between_ne_raise :
      (relations : Dict Relation)
      → (o : Option String) × (find_between t (e ∷ endpoints) relations ≡ ok o)
  unfolding find_between
  find_between_ne_raise [] = (none, refl)
  find_between_ne_raise ((i, x) ∷ relations) =
      let (o, h) = find_between_ne_raise relations in
      elim (Bool-cases (str_eq x.interface e.relation_type)) [
        | inl same ↦ elim (Bool-cases (all_join t (e ∷ endpoints) x)) [
          | inl all ↦ (some i, ground arith)
          | inr broken ↦ (o, ground arith)
        ]
        | inr other ↦ (o, ground arith)
      ]

-- For one endpoint or more the search of a well-formed topology never raises. What it returns is a
-- relation of the first endpoint's interface in which, for every endpoint, the service that is found
-- under the endpoint's service name is a member under the endpoint's relation name; it returns `None`
-- only where there is no such relation.
pub get_relation_between_endpoints_lem :
    (t : Topology) (e : RelationEndpoint) (endpoints : List RelationEndpoint)
    → IsWellFormed t
    → (o : Option String) × (get_relation_between_endpoints (e ∷ endpoints) t ≡ ok o)
      × ((r : String)
          → o ≡ some r
          → (rel : Relation) × (lookup r t.relations ≡ some rel)
            × (rel.interface ≡ e.relation_type)
            × All (IsIn t rel) (e ∷ endpoints))
      × (o ≡ none
          → (r : String) (rel : Relation) → lookup r t.relations ≡ some rel
          → rel.interface ≡ e.relation_type
          → ¬ All (IsIn t rel) (e ∷ endpoints))
unfolding get_relation_between_endpoints
get_relation_between_endpoints_lem t e endpoints w =
    let (o, h) = find_between_ne_raise t e endpoints t.relations in
    (
      o,
      h,
      λ r found.
          let (rel, hr, same, all) =
            find_between_sound t e endpoints r t.relations w.related.distinct (h ∙ ap ok found) in
          (rel, hr, same, all_join-IsIn t rel (e ∷ endpoints) all),
      λ absent r rel hr same.
          none_joins t rel (e ∷ endpoints)
            (find_between_complete t e endpoints r rel t.relations (h ∙ ap ok absent) hr same),
    )
