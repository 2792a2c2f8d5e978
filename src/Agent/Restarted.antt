-- ===== src/Agent/Restarted.antt =====
-- juju/unit/lifecycle.py, `UnitLifecycle._load_relations`: what an agent that starts again makes of the
-- relations that it knew, and of those that were broken while it was down.
use trusted_juju.Prelude.{
  String, Bool, true, Option, none, some, List, [], ◌∷◌, ◌≡◌, refl, ◌∙◌, sym, ap, subst, arith,
  eq_iff, str_eq, Bool-cases, inl, inr,
}
use trusted_juju.Prelude.Dict.{Dict, lookup, has_key, is_some, lookup-insert}
use trusted_juju.Prelude.Sets.{contains}
use trusted_juju.Workflow.Machine.{get_state, get_available_transitions}
use trusted_juju.Agent.RelationContracts.{IsKnown, IsKnown-of}
use trusted_juju.Agent.RelationLaws.{listed-expected}
use trusted_juju.Agent.Relations.{
  Cluster, ServiceRelation, RelationInfo, RelationWorkflowState, Relations, new_workflow,
  put_workflow,
}
use trusted_juju.Agent.Memberships.{
  and_then, by_id, before_colon, reconstruct_workflow, load_found, load_known, load_all, load_from,
  load_relations, process_service_changes,
}
use trusted_juju.Agent.MembershipSteps.{IsReliable, Runs, add_relation-Runs}
use trusted_juju.Agent.MembershipDicts.{idents, IsNamed}
use trusted_juju.Agent.MembershipLaws.{AllRun}
use trusted_juju.Agent.Reconciled.{Follows, by_id-Named, process-Delta}

-- A workflow that is put follows, where the others do.
put-Follows :
    (d : Dict ServiceRelation) (id : String) (w : RelationWorkflowState) (r : Relations)
    → Follows d r
    → (has_key id d ≡ true → Runs w)
    → IsKnown (get_state w.machine)
    → Follows d (put_workflow id w r)
unfolding put_workflow
put-Follows d id w r h runs known j v found = elim (Bool-cases (str_eq id j)) [
  | inl e ↦
      subst
        (λ (x : RelationWorkflowState).
          (has_key j d ≡ true → Runs x) × IsKnown (get_state x.machine))
        (some_eq w v (sym (lookup-insert id j w r.workflows ∙ ground arith) ∙ found))
        (λ k. runs (ap (λ i. has_key i d) ((eq_iff id j).0 e) ∙ k), known)
  | inr e ↦ h j v (sym (lookup-insert id j w r.workflows ∙ ground arith) ∙ found)
]
  where
    some_eq :
        (a b : RelationWorkflowState)
        → ◌≡◌ {A = Option RelationWorkflowState} (some a) (some b)
        → a ≡ b
    some_eq a b p = cc

module _ (c : Cluster) (reliable : IsReliable c) (d : Dict ServiceRelation)
    (named : IsNamed d) where
  -- The state file of a relation holds a state of the workflow.
  reconstructed-IsKnown :
      (id : String) (info : RelationInfo)
      → IsKnown (get_state (reconstruct_workflow c id info).machine)
  unfolding reconstruct_workflow get_available_transitions
  reconstructed-IsKnown id info =
      let (ts, available, flight) =
        reliable.resumes id (before_colon info.relation_name) info.relation_name
          info.relation_scope in
      listed-expected
        (get_state
          (new_workflow c id (before_colon info.relation_name) info.relation_name
            info.relation_scope).machine)
        ts available

  load_found-Follows :
      (id : String) (info : RelationInfo) (r : Relations) (o : Option ServiceRelation)
      → lookup id d ≡ o
      → Follows d r
      → (r' : Relations) × (load_found c id info r o ≡ (r', true)) × Follows d r'
  unfolding load_found
  load_found-Follows id info r (some s) e h =
      let (w, added, runs) = add_relation-Runs c reliable s r in
      (
        put_workflow s.internal_relation_id w r,
        added,
        put-Follows d s.internal_relation_id w r h (λ _. runs)
            (IsKnown-of (get_state w.machine) w.machine.world runs),
      )
  load_found-Follows id info r none e h = (
    put_workflow id (reconstruct_workflow c id info) r,
    refl,
    put-Follows d id (reconstruct_workflow c id info) r h
        (λ k. absurd (ground (arith, ap is_some e))) (reconstructed-IsKnown id info),
  )

  load_all-Follows :
      (known : Dict RelationInfo) (r : Relations)
      → Follows d r
      → (r' : Relations) × (load_all c d known r ≡ (r', true)) × Follows d r'
  unfolding load_all load_known
  load_all-Follows [] r h = (r, refl, h)
  load_all-Follows ((id, info) ∷ more) r h =
      let (r1, e, h1) = load_found-Follows id info r (lookup id d) refl h in
      let (r2, e2, h2) = load_all-Follows more r1 h1 in
      (r2, ap (λ p. and_then p (λ r'. load_all c d more r')) e ∙ e2, h2)

none_follow : (d : Dict ServiceRelation) (r : Relations) → Follows d (record r { workflows = [] })
unfolding lookup
none_follow d r id w e = absurd (cc)

load_from-Follows :
    (c : Cluster) (l : List ServiceRelation) (known : Option (Dict RelationInfo)) (r : Relations)
    → IsReliable c
    → Follows (by_id l) r
    → (r' : Relations) × (load_from c known (some l) r ≡ (r', true)) × Follows (by_id l) r'
unfolding load_from
load_from-Follows c l none r reliable h = (r, refl, h)
load_from-Follows c l (some known) r reliable h =
    load_all-Follows c reliable (by_id l) (by_id-Named l) known r h

load_relations-Follows :
    (c : Cluster) (l : List ServiceRelation) (r : Relations)
    → IsReliable c
    → c.get_relations_for_service ≡ some l
    → (r' : Relations) × (load_relations c r ≡ (r', true)) × Follows (by_id l) r'
unfolding load_relations
load_relations-Follows c l r reliable relations =
    let (r', e, h) =
      load_from-Follows c l r.known (record r { workflows = [] }) reliable
        (none_follow (by_id l) r) in
    (r', ap (λ o. load_from c r.known o (record r { workflows = [] })) relations ∙ e, h)

-- Where the executor runs, no call of ZooKeeper fails, and the state file of each relation holds a state
-- of the workflow with no transition in flight but one of that state: an agent that starts again, and
-- is then told of the relations of its service, has a workflow for each of them and for no other,
-- whatever relations its file knows, and of each the watcher and the scheduler run as its state wants.
pub process_service_changes-load :
    (c : Cluster) (service_relations : List ServiceRelation) (r : Relations) (is_subordinate : Bool)
    → IsReliable c
    → c.get_relations_for_service ≡ some service_relations
    → c.is_subordinate ≡ some is_subordinate
    → let p = and_then (load_relations c r) (process_service_changes c service_relations) in
      (p.1 ≡ true)
      × ((id : String) → has_key id p.0.workflows ≡ contains id (idents service_relations))
      × AllRun p.0
process_service_changes-load c l r b reliable relations principal =
    let (r', e, follows) = load_relations-Follows c l r reliable relations in
    let more = process-Delta c l r' b reliable principal follows in
    rw e (more.returns, more.relations, more.runs)
