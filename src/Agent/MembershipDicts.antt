-- ===== src/Agent/MembershipDicts.antt =====
-- juju/unit/lifecycle.py, `UnitLifecycle._process_service_changes`: the dicts of its relations.
use trusted_juju.Prelude.{
  String, Bool, true, false, ◌||◌, Option, none, some, List, [], ◌∷◌, ◌≡◌, refl, ◌∙◌, sym, ap,
  subst, arith, eq_iff, str_eq, if◌then◌else◌, Bool-cases, inl, inr,
}
use trusted_juju.Prelude.Dict.{Dict, lookup, insert, has_key, lookup-insert}
use trusted_juju.Prelude.Sets.{contains}
use trusted_juju.Workflow.Machine.{get_state}
use trusted_juju.Agent.RelationLifecycle.{stop, halt, is_blocked}
use trusted_juju.Agent.Relations.{
  Cluster, Relations, ServiceRelation, RelationWorkflowState, each, stop_lifecycle, infos,
  get_relation_info,
}
use trusted_juju.Agent.Memberships.{add_by_id, stop_if, with_workflows, stop_removed}

abbrev pub idents : List ServiceRelation → List String
idents [] = []
idents (s ∷ more) = s.internal_relation_id ∷ idents more

pub has_key-add_by_id :
    (j : String) (d : Dict ServiceRelation) (l : List ServiceRelation)
    → has_key j (add_by_id d l) ≡ (has_key j d || contains j (idents l))
unfolding add_by_id contains
has_key-add_by_id j d [] = ground arith
has_key-add_by_id j d (s ∷ more) =
    has_key-add_by_id j (insert s.internal_relation_id s d) more
    ∙ ground (arith, lookup-insert s.internal_relation_id j s d)

abbrev pub IsNamed : Dict ServiceRelation → Type 0
IsNamed d = (j : String) (s : ServiceRelation) → lookup j d ≡ some s → s.internal_relation_id ≡ j

some_relation_eq :
    (a b : ServiceRelation) → ◌≡◌ {A = Option ServiceRelation} (some a) (some b) → a ≡ b
some_relation_eq a b p = cc

insert-Named :
    (s : ServiceRelation) (d : Dict ServiceRelation)
    → IsNamed d
    → IsNamed (insert s.internal_relation_id s d)
insert-Named s d h j t found = elim (Bool-cases (str_eq s.internal_relation_id j)) [
  | inl e ↦
      subst (λ (x : ServiceRelation). x.internal_relation_id ≡ j)
        (some_relation_eq s t
          (sym (lookup-insert s.internal_relation_id j s d ∙ ground arith) ∙ found))
        ((eq_iff s.internal_relation_id j).0 e)
  | inr e ↦ h j t (sym (lookup-insert s.internal_relation_id j s d ∙ ground arith) ∙ found)
]

pub add_by_id-Named :
    (d : Dict ServiceRelation) (l : List ServiceRelation) → IsNamed d → IsNamed (add_by_id d l)
unfolding add_by_id
add_by_id-Named d [] h = h
add_by_id-Named d (s ∷ more) h =
    add_by_id-Named (insert s.internal_relation_id s d) more (insert-Named s d h)

abbrev pub halted : RelationWorkflowState → RelationWorkflowState
halted w = record w { machine = record w.machine { world = halt true w.machine.world } }

-- The workflows after all that are removed have stopped.
unfoldable pub halted_all : List String → Dict RelationWorkflowState → Dict RelationWorkflowState
halted_all removed [] = []
halted_all removed ((id, w) ∷ ws) =
    (id, if contains id removed then halted w else w) ∷ halted_all removed ws

abbrev pub stopped_if : Bool → RelationWorkflowState → RelationWorkflowState
stopped_if b w = if b then halted w else w

abbrev pub map_some :
    (RelationWorkflowState → RelationWorkflowState)
    → Option RelationWorkflowState
    → Option RelationWorkflowState
map_some f none = none
map_some f (some w) = some (f w)

pub lookup-halted_all :
    (j : String) (rem : List String) (ws : Dict RelationWorkflowState)
    → lookup j (halted_all rem ws) ≡ map_some (stopped_if (contains j rem)) (lookup j ws)
unfolding halted_all lookup
lookup-halted_all j rem [] = refl
lookup-halted_all j rem ((id, w) ∷ ws) = elim (Bool-cases (str_eq id j)) [
  | inl e ↦ rw e (ap (λ i. some (stopped_if (contains i rem) w)) ((eq_iff id j).0 e))
  | inr e ↦ rw e (lookup-halted_all j rem ws)
]

info-stopped :
    (b : Bool) (w : RelationWorkflowState)
    → get_relation_info (stopped_if b w) ≡ get_relation_info w
unfolding get_relation_info
info-stopped true w = refl
info-stopped false w = refl

pub infos-halted_all :
    (rem : List String) (ws : Dict RelationWorkflowState) → infos (halted_all rem ws) ≡ infos ws
unfolding infos halted_all
infos-halted_all rem [] = refl
infos-halted_all rem ((id, w) ∷ ws) =
    ap (λ i. (id, i) ∷ infos (halted_all rem ws)) (info-stopped (contains id rem) w)
    ∙ ap (λ d. (id, get_relation_info w) ∷ d) (infos-halted_all rem ws)

pub state-stopped :
    (b : Bool) (w : RelationWorkflowState)
    → get_state (stopped_if b w).machine ≡ get_state w.machine
unfolding get_state
state-stopped true w = refl
state-stopped false w = refl

-- Where the executor runs, stopping returns.
stop_if-halted :
    (c : Cluster) (removed : List String) (id : String) (w : RelationWorkflowState)
    → (c.answers id).executor ≡ true
    → stop_if c removed id w ≡ (if contains id removed then halted w else w, true)
unfolding stop_if stop_lifecycle stop is_blocked
stop_if-halted c removed id w runs = elim (Bool-cases (contains id removed)) [
  | inl e ↦ rw (e, runs) refl
  | inr e ↦ rw e refl
]

each-halted :
    (c : Cluster) (removed : List String) (ws : Dict RelationWorkflowState)
    → ((id : String) → (c.answers id).executor ≡ true)
    → each (stop_if c removed) ws ≡ (halted_all removed ws, true)
unfolding each halted_all
each-halted c removed [] runs = refl
each-halted c removed ((id, w) ∷ ws) runs =
    rw (stop_if-halted c removed id w (runs id), each-halted c removed ws runs) refl

pub stop_removed-halted :
    (c : Cluster) (removed : List String) (r : Relations)
    → ((id : String) → (c.answers id).executor ≡ true)
    → stop_removed c removed r ≡ (record r { workflows = halted_all removed r.workflows }, true)
unfolding stop_removed
stop_removed-halted c removed r runs =
    ap (with_workflows r) (each-halted c removed r.workflows runs)
