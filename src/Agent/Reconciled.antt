-- ===== src/Agent/Reconciled.antt =====
-- juju/unit/lifecycle.py, `UnitLifecycle._process_service_changes`: the workflows of a unit follow the
-- relations of its service.
use trusted_juju.Prelude.{
  String, Bool, true, false, not, ◌&&◌, Option, none, some, List, [], ◌≡◌, refl, ◌∙◌, sym, ap,
  subst, arith, if◌then◌else◌, both_of_&&,
}
use trusted_juju.Prelude.Dict.{Dict, lookup, keys, has_key, is_some}
use trusted_juju.Prelude.Sets.{contains, contains-difference, difference-IsSetLike, has_key-keys}
use trusted_juju.Workflow.Machine.{get_state}
use trusted_juju.Agent.RelationContracts.{IsKnown, IsKnown-of}
use trusted_juju.Agent.Relations.{Cluster, ServiceRelation, RelationWorkflowState, Relations}
use trusted_juju.Agent.Memberships.{
  and_then, by_id, depart_all, add_all, added, removed, process_delta, process_service_changes,
}
use trusted_juju.Agent.MembershipSteps.{IsReliable, Runs, IsStored, Departed, depart_all-Departed}
use trusted_juju.Agent.MembershipDicts.{
  idents, IsNamed, halted_all, stop_removed-halted, has_key-add_by_id, add_by_id-Named, stopped_if,
  map_some, lookup-halted_all, infos-halted_all, state-stopped,
}
use trusted_juju.Agent.MembershipLaws.{AllRun, Added, add_all-Added}

pub and_then-returns :
    (p : Relations × Bool) (next : Relations → Relations × Bool)
    → p.1 ≡ true
    → and_then p next ≡ next p.0
and_then-returns (r, true) next h = refl
and_then-returns (r, false) next h = absurd (cc)

key_some :
    (o : Option RelationWorkflowState)
    → is_some o ≡ true
    → (w : RelationWorkflowState) × (o ≡ some w)
key_some none h = absurd (cc)
key_some (some w) h = (w, refl)

named_some : (o : Option ServiceRelation) → is_some o ≡ true → (s : ServiceRelation) × (o ≡ some s)
named_some none h = absurd (cc)
named_some (some s) h = (s, refl)

contains-removed :
    (new : Dict ServiceRelation) (r : Relations) (id : String)
    → contains id (removed new r) ≡ (has_key id r.workflows && not (has_key id new))
contains-removed new r id =
    contains-difference id (keys r.workflows) (keys new)
    ∙ ap (λ b. b && not (contains id (keys new))) (has_key-keys id r.workflows)
    ∙ ap (λ b. has_key id r.workflows && not b) (has_key-keys id new)

contains-added :
    (new : Dict ServiceRelation) (r : Relations) (id : String)
    → contains id (added new r) ≡ (has_key id new && not (has_key id r.workflows))
contains-added new r id =
    contains-difference id (keys new) (keys r.workflows)
    ∙ ap (λ b. b && not (contains id (keys r.workflows))) (has_key-keys id new)
    ∙ ap (λ b. has_key id new && not b) (has_key-keys id r.workflows)

-- What the callback for the relations of a service leaves.
pub record Reconciled (service_relations : List ServiceRelation) (p : Relations × Bool)
    : Type 0 where
  pub returns : p.1 ≡ true
  pub relations : (id : String) → has_key id p.0.workflows ≡ contains id (idents service_relations)
  pub runs : AllRun p.0
  pub stored : IsStored p.0

-- The state of each relation of the unit is one of the workflow, and the relation runs as it wants where
-- it is one of those that are given.
abbrev pub Follows : Dict ServiceRelation → Relations → Type 0
Follows new r =
    (id : String) (w : RelationWorkflowState)
    → lookup id r.workflows ≡ some w
    → (has_key id new ≡ true → Runs w) × IsKnown (get_state w.machine)

-- What the callback leaves of relations that it need not have found running, or in the file.
pub record Delta (service_relations : List ServiceRelation) (r : Relations) (p : Relations × Bool)
    : Type 0 where
  pub returns : p.1 ≡ true
  pub relations : (id : String) → has_key id p.0.workflows ≡ contains id (idents service_relations)
  pub runs : AllRun p.0
  pub stored : IsStored r → IsStored p.0

module _ (c : Cluster) (reliable : IsReliable c) (new : Dict ServiceRelation) (named : IsNamed new)
    (r : Relations) (follows : Follows new r) where
  -- The removed relations are stopped.
  abbrev pub stopping : Relations
  stopping = record r { workflows = halted_all (removed new r) r.workflows }

  stopping-IsKnown :
      (id : String)
      → contains id (removed new r) ≡ true
      → (w : RelationWorkflowState) × (lookup id stopping.workflows ≡ some w)
        × IsKnown (get_state w.machine)
  stopping-IsKnown id h =
      let there = both_of_&& (has_key id r.workflows) _ (sym (contains-removed new r id) ∙ h) in
      let (w, found) = key_some (lookup id r.workflows) there.0 in
      let b = contains id (removed new r) in
      (
        stopped_if b w,
        lookup-halted_all id (removed new r) r.workflows ∙ ap (map_some (stopped_if b)) found,
        subst IsKnown (sym (state-stopped b w)) (follows id w found).1,
      )

  abbrev pub after_departures : Relations × Bool
  after_departures = depart_all c (removed new r) stopping

  departures : Departed c reliable (removed new r) stopping after_departures
  departures =
      depart_all-Departed c reliable (removed new r) stopping
        (difference-IsSetLike (keys r.workflows) (keys new)) stopping-IsKnown

  left_as :
      (id : String)
      → lookup id after_departures.0.workflows
        ≡ (if contains id (removed new r) then none else lookup id r.workflows)
  left_as id = departures.left id ∙ by_test (contains id (removed new r)) refl
    where
      unchanged : (o : Option RelationWorkflowState) → map_some (stopped_if false) o ≡ o
      unchanged none = refl
      unchanged (some w) = refl

      by_test :
          (b : Bool)
          → contains id (removed new r) ≡ b
          → (if b then none else lookup id stopping.workflows)
            ≡ (if b then none else lookup id r.workflows)
      by_test true e = refl
      by_test false e =
          lookup-halted_all id (removed new r) r.workflows
          ∙ ap (λ b. map_some (stopped_if b) (lookup id r.workflows)) e
          ∙ unchanged (lookup id r.workflows)

  left-AllRun : AllRun after_departures.0
  left-AllRun id w found =
      let e : lookup id r.workflows ≡ some w = ground (arith, left_as id) in
      (follows id w e).0 (ground (arith, left_as id, contains-removed new r id, ap is_some e))

  additions :
      (p : Bool)
      → Added c reliable p new
          (added new r)
          after_departures.0
          (add_all c p new (added new r) after_departures.0)
  additions p = add_all-Added c reliable p new (added new r) after_departures.0 (λ id h.
      let (s, found) =
        named_some (lookup id new)
          (both_of_&& (has_key id new) _ (sym (contains-added new r id) ∙ h)).0 in
      (s, found, named id s found))

  delta-keys :
      (p : Bool) (id : String)
      → has_key id (add_all c p new (added new r) after_departures.0).0.workflows ≡ has_key id new
  delta-keys p id =
      (additions p).kept id
      ∙ ground (arith, contains-added new r id, contains-removed new r id, ap is_some (left_as id))

  delta :
      (service_relations : List ServiceRelation) (o : Option Bool) (b : Bool)
      → o ≡ some b
      → ((id : String) → has_key id new ≡ contains id (idents service_relations))
      → Delta service_relations r (process_delta c new r o)
  unfolding process_delta
  delta l none b e keyed = absurd (cc)
  delta l (some is_subordinate) b e keyed =
      let more = additions (not is_subordinate) in
      subst (Delta l r)
        (sym (
          ap
            (λ p. and_then p (λ r1.
              and_then (depart_all c (removed new r) r1)
                (add_all c (not is_subordinate) new (added new r))))
            (stop_removed-halted c (removed new r) r (λ id. (reliable.responsive id).executor_runs))
          ∙ and_then-returns after_departures (add_all c (not is_subordinate) new (added new r))
              departures.returns))
        (record {
          returns = more.returns;
          relations = λ id. delta-keys (not is_subordinate) id ∙ keyed id;
          runs = more.runs left-AllRun;
          stored = λ stored. more.stored (
              departures.stored
                (stored ∙ ap some (sym (infos-halted_all (removed new r) r.workflows))));
        })

pub by_id-Named : (l : List ServiceRelation) → IsNamed (by_id l)
unfolding by_id lookup
by_id-Named l = add_by_id-Named [] l (λ j s h. absurd (cc))

pub process-Delta :
    (c : Cluster) (l : List ServiceRelation) (r : Relations) (is_subordinate : Bool)
    → IsReliable c
    → c.is_subordinate ≡ some is_subordinate
    → Follows (by_id l) r
    → Delta l r (process_service_changes c l r)
unfolding process_service_changes by_id lookup
process-Delta c l r b reliable known follows =
    delta c reliable (by_id l) (by_id-Named l) r follows l c.is_subordinate b known
      (λ id. has_key-add_by_id id [] l)

-- Where the executor runs and no call of ZooKeeper fails, the watcher and the scheduler of each relation
-- of a unit run as its state wants, the file knows the relations, and the state file of a relation that
-- is added holds a state of the workflow with no transition in flight but one of that state: the
-- callback for the relations of the service returns, and leaves a workflow for each of them and for no
-- other, with its watcher and its scheduler running as its state wants, and the file knowing these
-- relations.
pub process_service_changes-Reconciled :
    (c : Cluster) (service_relations : List ServiceRelation) (r : Relations) (is_subordinate : Bool)
    → IsReliable c
    → c.is_subordinate ≡ some is_subordinate
    → AllRun r
    → IsStored r
    → Reconciled service_relations (process_service_changes c service_relations r)
process_service_changes-Reconciled c l r b reliable known runs stored =
    let d = process-Delta c l r b reliable known (λ id w e.
      (λ _. runs id w e, IsKnown-of (get_state w.machine) w.machine.world (runs id w e))) in
    record { returns = d.returns; relations = d.relations; runs = d.runs; stored = d.stored stored }
