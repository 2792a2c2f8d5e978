-- ===== src/Agent/MembershipLaws.antt =====
-- juju/unit/lifecycle.py, `UnitLifecycle._process_service_changes`: afterwards the unit has a workflow for
-- each relation of the service, and for no other.
use trusted_juju.Prelude.{
  String, Bool, true, ◌||◌, Option, some, List, [], ◌∷◌, ◌≡◌, refl, ◌∙◌, sym, ap, subst, arith,
  eq_iff, str_eq, Bool-cases, inl, inr,
}
use trusted_juju.Prelude.Dict.{Dict, lookup, has_key, is_some, lookup-insert}
use trusted_juju.Prelude.Sets.{contains}
use trusted_juju.Agent.Relations.{
  Cluster, ServiceRelation, RelationWorkflowState, Relations, store_relations, put_workflow,
}
use trusted_juju.Agent.Memberships.{and_then, deploy, add_found, add_new, add_all}
use trusted_juju.Agent.MembershipSteps.{IsReliable, Runs, IsStored, IsStored-now, add_relation-Runs}

-- Of every relation of the unit the watcher and the scheduler run as its state wants.
abbrev pub AllRun : Relations → Type 0
AllRun r = (id : String) (w : RelationWorkflowState) → lookup id r.workflows ≡ some w → Runs w

deploy-workflows :
    (p : Bool) (s : ServiceRelation) (r : Relations) → (deploy p s r).workflows ≡ r.workflows
unfolding deploy
deploy-workflows p s r = ground arith

put-Runs :
    (id : String) (w : RelationWorkflowState) (r : Relations)
    → AllRun r
    → Runs w
    → AllRun (put_workflow id w r)
unfolding put_workflow
put-Runs id w r h runs j v found = elim (Bool-cases (str_eq id j)) [
  | inl e ↦
      subst Runs (some_eq w v (sym (lookup-insert id j w r.workflows ∙ ground arith) ∙ found)) runs
  | inr e ↦ h j v (sym (lookup-insert id j w r.workflows ∙ ground arith) ∙ found)
]
  where
    some_eq :
        (a b : RelationWorkflowState)
        → ◌≡◌ {A = Option RelationWorkflowState} (some a) (some b)
        → a ≡ b
    some_eq a b p = cc

put_key :
    (i j : String) (w : RelationWorkflowState) (r : Relations)
    → has_key j (put_workflow i w r).workflows ≡ (str_eq i j || has_key j r.workflows)
unfolding put_workflow
put_key i j w r = ap is_some (lookup-insert i j w r.workflows) ∙ ground arith

module _ (c : Cluster) (reliable : IsReliable c) (p : Bool) (new : Dict ServiceRelation) where
  pub record Added (ids : List String) (r : Relations) (a : Relations × Bool) : Type 0 where
    pub returns : a.1 ≡ true
    pub kept :
        (id : String) → has_key id a.0.workflows ≡ (contains id ids || has_key id r.workflows)
    pub runs : AllRun r → AllRun a.0
    pub stored : IsStored r → IsStored a.0

  add_new-returns :
      (id : String) (s : ServiceRelation) (r : Relations)
      → lookup id new ≡ some s
      → s.internal_relation_id ≡ id
      → (r' : Relations) × (add_new c p new id r ≡ (store_relations r', true))
        × ((j : String) → has_key j r'.workflows ≡ (str_eq id j || has_key j r.workflows))
        × (AllRun r → AllRun r')
  unfolding add_new add_found
  add_new-returns id s r found same =
      let (w, e, runs) = add_relation-Runs c reliable s r in
      let id' = s.internal_relation_id in
      let r1 = put_workflow id' w r in
      let d = deploy-workflows p s r1 in
      (
        deploy p s r1,
        ap (add_found c p r) found
            ∙ ap (λ a. and_then a (λ r'. (store_relations (deploy p s r'), true))) e,
        λ j.
            ap (λ ws. has_key j ws) d
            ∙ put_key id' j w r
            ∙ ap (λ i. str_eq i j || has_key j r.workflows) same,
        λ h.
            subst (λ ws. (j : String) (v : RelationWorkflowState) → lookup j ws ≡ some v → Runs v)
              (sym d) (put-Runs id' w r h runs),
      )

  pub add_all-Added :
      (ids : List String) (r : Relations)
      → ((id : String)
          → contains id ids ≡ true
          → (s : ServiceRelation) × (lookup id new ≡ some s) × (s.internal_relation_id ≡ id))
      → Added ids r (add_all c p new ids r)
  unfolding add_all contains store_relations
  add_all-Added [] r there = record {
    returns = refl;
    kept = λ id. refl;
    runs = λ h. h;
    stored = λ h. h;
  }
  add_all-Added (id ∷ ids) r there =
      let (s, found, same) = there id (ground (arith, eq_iff id id)) in
      let (r', e, kept, runs) = add_new-returns id s r found same in
      let rest = add_all-Added ids (store_relations r') (λ j h. there j (ground arith)) in
      rw e (record {
        returns = rest.returns;
        kept = λ j. rest.kept j ∙ ground (arith, kept j);
        runs = λ h. rest.runs (runs h);
        stored = λ _. rest.stored (IsStored-now r');
      })
