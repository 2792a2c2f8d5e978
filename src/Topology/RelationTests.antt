-- ===== src/Topology/RelationTests.antt =====
-- The theorems about services, relations and endpoints, and about stored versions, at small inputs.
use trusted_juju.Prelude.{
  All, String, ◌≡◌, ◌≢◌, ◌↔◌, ◌⊎◌, refl, true, false, Option, none, some, [], ◌∷◌, ok, raise,
}
use trusted_juju.Prelude.Dict.{lookup}
use trusted_juju.Topology.State.{Topology, Relation, service_in_relations}
use trusted_juju.Topology.Service
use trusted_juju.Topology.Relation
use trusted_juju.Topology.Endpoint
use trusted_juju.Topology.Endpoint.{RelationEndpoint}
use trusted_juju.Topology.Memberships.{remove_service_refused_iff, get_relation_service-assign}
use trusted_juju.Topology.Endpoints.{IsIn, get_relation_between_endpoints_lem}
use trusted_juju.Topology.Samples.{small, program, small-IsWellFormed}

remove_service_refused_iff_example :
    (Service.remove_service "s-0" small ≡ raise (service_in_relations "s-0")) ↔ (
      (Service.has_service "s-0" small ≡ true)
      × ((r : String) × (Relation.relation_has_service r "s-0" small ≡ true)))
remove_service_refused_iff_example = remove_service_refused_iff small "s-0" small-IsWellFormed

abbrev lone_relation : Topology
lone_relation = record small {
  relations = ("r-1", record { interface = "http"; scope = "global"; services = [] }) ∷ [];
}

abbrev joined_relation : Topology
joined_relation = record small {
  relations =
      (
        "r-1",
        record {
          interface = "http";
          scope = "global";
          services = ("s-0", record { role = "server"; name = "web" }) ∷ [];
        },
      )
      ∷ [];
}

get_relation_service-assign_example :
    (Relation.relation_has_service "r-1" "s-0" lone_relation ≡ false)
    × ((interface : String) × (Relation.get_relation_service "r-1" "s-0" joined_relation
          ≡ ok (interface, record { role = "server"; name = "web" })))
    × ((r' k' : String)
        → ("r-1" ≢ r') ⊎ ("s-0" ≢ k')
        → (Relation.relation_has_service r' k' joined_relation
            ≡ Relation.relation_has_service r' k' lone_relation)
          × (Relation.get_relation_service r' k' joined_relation
              ≡ Relation.get_relation_service r' k' lone_relation))
unfolding program
get_relation_service-assign_example =
    get_relation_service-assign lone_relation joined_relation "r-1" "s-0" "web" "server" refl

abbrev blog_end : RelationEndpoint
blog_end = record {
  service_name = "blog";
  relation_type = "mysql";
  relation_name = "db";
  relation_role = "client";
  relation_scope = "global";
}

abbrev db_end : RelationEndpoint
db_end = record {
  service_name = "db";
  relation_type = "mysql";
  relation_name = "server";
  relation_role = "server";
  relation_scope = "global";
}

found_relation :
    Endpoint.get_relation_between_endpoints (blog_end ∷ db_end ∷ []) small ≡ ok (some "r-0")
unfolding program
found_relation = refl

get_relation_between_endpoints_lem_example :
    (o : Option String) × (Endpoint.get_relation_between_endpoints (blog_end ∷ db_end ∷ []) small
      ≡ ok o)
    × ((r : String)
        → o ≡ some r
        → (rel : Relation) × (lookup r small.relations ≡ some rel)
          × (rel.interface ≡ "mysql")
          × All (IsIn small rel) (blog_end ∷ db_end ∷ []))
    × (o ≡ none
        → (r : String) (rel : Relation) → lookup r small.relations ≡ some rel
        → rel.interface ≡ "mysql"
        → ¬ All (IsIn small rel) (blog_end ∷ db_end ∷ []))
get_relation_between_endpoints_lem_example =
    get_relation_between_endpoints_lem small blog_end (db_end ∷ []) small-IsWellFormed
