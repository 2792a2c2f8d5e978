-- ===== src/Agent/MembershipSteps.antt =====
-- juju/unit/lifecycle.py, `UnitLifecycle._process_service_changes`: one relation that departs, one that is
-- added, and all of either.
use trusted_juju.Prelude.{
  String, Bool, true, none, some, List, [], ◌∷◌, ◌≡◌, refl, ◌∙◌, ap, arith, ok, raise, eq_iff,
  if◌then◌else◌,
}
use trusted_juju.Prelude.Dict.{lookup, remove, lookup-remove}
use trusted_juju.Prelude.Sets.{contains, IsSetLike}
use trusted_juju.Workflow.Defs.{Transition, has_id}
use trusted_juju.Workflow.Machine.{Answer, get_state, get_inflight, get_available_transitions}
use trusted_juju.Workflow.Unit.{relation_workflow}
use trusted_juju.Agent.RelationLifecycle.{RelationLifecycle}
use trusted_juju.Agent.RelationStates.{transition_state, synchronize}
use trusted_juju.Agent.RelationRuns.{IsResponsive}
use trusted_juju.Agent.RelationContracts.{Agrees, IsKnown}
use trusted_juju.Agent.RelationLaws.{Settled, synchronize-Agrees}
use trusted_juju.Agent.Departures.{depart-returns}
use trusted_juju.Agent.Relations.{
  Cluster, ServiceRelation, RelationWorkflowState, Relations, with_answer, move_to, infos,
  store_relations, has_unit_state, new_workflow, put_workflow, add_relation,
}
use trusted_juju.Agent.Memberships.{and_then, popped_as, depart, depart_found, depart_all}

-- The executor runs, no call of ZooKeeper fails, and the state file of a relation that is added holds a state of the
-- workflow, with no transition in flight but one of that state.
pub record IsReliable (c : Cluster) : Type 0 where
  pub responsive : (id : String) → IsResponsive (c.answers id)
  pub has_state : (id : String) → has_unit_state c id ≡ true
  pub resumes :
      (id name ident scope : String)
      → let m = (new_workflow c id name ident scope).machine in
        (ts : List Transition) × (get_available_transitions relation_workflow m ≡ ok ts)
        × ((i : String) → get_inflight m ≡ some i → has_id i ts ≡ true)

-- The watcher and the scheduler of the relation run as its state wants.
abbrev pub Runs : RelationWorkflowState → Type 0
Runs w = Agrees (get_state w.machine) w.machine.world

-- The file knows the workflows.
abbrev pub IsStored : Relations → Type 0
IsStored r = r.known ≡ some (infos r.workflows)

pub IsStored-now : (r : Relations) → IsStored (store_relations r)
unfolding store_relations
IsStored-now r = refl

module _ (c : Cluster) (reliable : IsReliable c) where
  popped_returns :
      (id : String) (r : Relations) (w : RelationWorkflowState) (a : Answer RelationLifecycle)
      (b : Bool)
      → a.1 ≡ ok b
      → (r' : Relations) × (and_then
            (popped_as id r (with_answer w a))
            (λ r'. (store_relations r', true))
          ≡ (store_relations r', true))
        × (r'.workflows ≡ remove id r.workflows)
  popped_returns id r w (m, ok b) b' e = (_, refl, refl)
  popped_returns id r w (m, raise x) b' e = absurd (cc)

  depart-returns_stored :
      (id : String) (r : Relations) (w : RelationWorkflowState)
      → lookup id r.workflows ≡ some w
      → IsKnown (get_state w.machine)
      → (r' : Relations) × (depart c id r ≡ (store_relations r', true))
        × (r'.workflows ≡ remove id r.workflows)
  unfolding depart depart_found move_to
  depart-returns_stored id r w found known =
      let (b, e) = depart-returns (c.answers id) (reliable.responsive id) w.machine known in
      let (r', same, left) =
        popped_returns id r w (transition_state (c.answers id) (some "departed") w.machine) b e in
      (r', ap (depart_found c id r) found ∙ same, left)

  pub record Departed (ids : List String) (r : Relations) (p : Relations × Bool) : Type 0 where
    pub returns : p.1 ≡ true
    pub left :
        (id : String)
        → lookup id p.0.workflows ≡ (if contains id ids then none else lookup id r.workflows)
    pub stored : IsStored r → IsStored p.0

  pub depart_all-Departed :
      (ids : List String) (r : Relations)
      → IsSetLike ids
      → ((id : String)
          → contains id ids ≡ true
          → (w : RelationWorkflowState) × (lookup id r.workflows ≡ some w)
            × IsKnown (get_state w.machine))
      → Departed ids r (depart_all c ids r)
  unfolding depart_all contains store_relations
  depart_all-Departed [] r distinct there = record {
    returns = refl;
    left = λ id. refl;
    stored = λ h. h;
  }
  depart_all-Departed (id ∷ ids) r distinct there =
      let (w, found, known) = there id (ground (arith, eq_iff id id)) in
      let (r', same, left) = depart-returns_stored id r w found known in
      let rest = depart_all-Departed ids (store_relations r') (distinct.1) (λ j h.
        let (v, f, k) = there j (ground arith) in
        (
          v,
          ap (lookup j) left ∙ lookup-remove id j r.workflows ∙ ground (arith, eq_iff id j),
          k,
        )) in
      rw same (record {
        returns = rest.returns;
        left = λ j.
            rest.left j
            ∙ ap (λ ws. if contains j ids then none else lookup j ws) left
            ∙ ap (λ o. if contains j ids then none else o) (lookup-remove id j r.workflows)
            ∙ ground arith;
        stored = λ _. rest.stored (IsStored-now r');
      })

  answered :
      (w : RelationWorkflowState) (a : Answer RelationLifecycle)
      → Settled a
      → ((with_answer w a).1 ≡ true) × Runs (with_answer w a).0
  answered w (m, ok b) h = (refl, h.agrees)
  answered w (m, raise e) h = absurd (ground (arith, h.returns))

  pub add_relation-Runs :
      (s : ServiceRelation) (r : Relations)
      → (w : RelationWorkflowState) × (add_relation c s r
          ≡ (put_workflow s.internal_relation_id w r, true))
        × Runs w
  unfolding add_relation
  add_relation-Runs s r =
      let id = s.internal_relation_id in
      let w = new_workflow c id s.relation_name s.relation_ident s.relation_scope in
      let (ts, available, flight) =
        reliable.resumes id s.relation_name s.relation_ident s.relation_scope in
      let (returns, runs) = answered w (synchronize (c.answers id) w.machine) (
        synchronize-Agrees (c.answers id) w.machine ts (reliable.responsive id) available flight) in
      (
        (with_answer w (synchronize (c.answers id) w.machine)).0,
        rw (reliable.has_state id, returns) refl,
        runs,
      )
