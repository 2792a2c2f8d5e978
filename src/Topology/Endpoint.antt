-- ===== src/Topology/Endpoint.antt =====
-- juju/state/endpoint.py, and the searches by endpoints of juju/state/topology.py.
use trusted_juju.Prelude.{
  String, Bool, true, false, ◌&&◌, ◌||◌, not, Option, none, some, List, [], ◌∷◌, str_eq,
  if◌then◌else◌, Result, ok, raise,
}
use trusted_juju.Prelude.Dict.{Dict, lookup, any_value}
use trusted_juju.Topology.State.{Topology, Relation, Membership, Error, index_error}
use trusted_juju.Topology.Service.{find_service_with_name}

pub record RelationEndpoint : Type 0 where
  pub service_name : String
  pub relation_type : String
  pub relation_name : String
  pub relation_role : String
  pub relation_scope : String

-- The argument is an endpoint by its type, so the `TypeError` of the source does not arise.
unfoldable pub may_relate_to : RelationEndpoint → RelationEndpoint → Bool
may_relate_to a b =
    str_eq a.relation_type b.relation_type
    && (str_eq a.relation_role "server" && str_eq b.relation_role "client"
        || (str_eq a.relation_role "client" && str_eq b.relation_role "server"
            || str_eq a.relation_role "peer" && str_eq b.relation_role "peer"))

-- `services.get(service_ids[endpoint])`: an unknown name has the id `None`, which is no key.
unfoldable pub membership_of : Topology → RelationEndpoint → Dict Membership → Option Membership
membership_of t endpoint services = elim (find_service_with_name endpoint.service_name t) [
  | none ↦ none
  | some service_id ↦ lookup service_id services
]

unfoldable pub joins : Topology → RelationEndpoint → Relation → Bool
unfolding membership_of
joins t endpoint r = elim (membership_of t endpoint r.services) [
  | none ↦ false
  | some m ↦ str_eq m.name endpoint.relation_name
]

-- The inner loop with its `else`: no endpoint breaks it.
unfoldable pub all_join : Topology → List RelationEndpoint → Relation → Bool
unfolding joins
all_join t [] r = true
all_join t (e ∷ endpoints) r = joins t e r && all_join t endpoints r

unfoldable pub all_join_in_scope : Topology → List RelationEndpoint → Relation → Bool
unfolding joins
all_join_in_scope t [] r = true
all_join_in_scope t (e ∷ endpoints) r =
    joins t e r && str_eq r.scope e.relation_scope && all_join_in_scope t endpoints r

unfoldable pub has_relation_between_endpoints : List RelationEndpoint → Topology → Bool
unfolding all_join_in_scope
has_relation_between_endpoints endpoints t = any_value (all_join_in_scope t endpoints) t.relations

-- The outer loop. `endpoints[0]` fails on an empty list, once there is a relation.
unfoldable pub find_between :
    Topology → List RelationEndpoint → Dict Relation → Result Error (Option String)
find_between t endpoints [] = ok none
find_between t [] ((relation_id, r) ∷ relations) = raise index_error
find_between t (e ∷ endpoints) ((relation_id, r) ∷ relations) =
    let rest = find_between t (e ∷ endpoints) relations in
    if not (str_eq r.interface e.relation_type)
    then rest
    else if all_join t (e ∷ endpoints) r
    then ok (some relation_id)
    else rest

unfoldable pub get_relation_between_endpoints :
    List RelationEndpoint → Topology → Result Error (Option String)
unfolding find_between
get_relation_between_endpoints endpoints t = find_between t endpoints t.relations
