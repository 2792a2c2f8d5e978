-- ===== src/Agent/Departures.antt =====
-- juju/unit/workflow.py, `RelationWorkflowState`: a relation departs from every state, also when its
-- lifecycle is stopped by then.
use trusted_juju.Prelude.{
  String, Bool, true, false, Option, none, some, List, [], ◌∷◌, ◌≡◌, refl, sym, subst, arith, ok,
  raise, str_eq, eq_iff, if◌then◌else◌, Bool-cases, inl, inr, Result, both_of_&&, eq_refl,
}
use trusted_juju.Prelude.Dict.{lookup, insert}
use trusted_juju.Workflow.Defs.{
  Error, State, Transition, state_eq, get_transition, get_transitions, has_id, has_state, collect,
  ids_of,
}
use trusted_juju.Workflow.Machine.{
  Answer, get_state, get_available_transitions, first_to, fire_to, fire_to_among, fire_transition,
}
use trusted_juju.Workflow.Machine
use trusted_juju.Workflow.Check.{all, all-sources, get_transitions-ids}
use trusted_juju.Workflow.Safe.{fire_transition-Safe}
use trusted_juju.Workflow.Unit.{relation_workflow}
use trusted_juju.Workflow.UnitLaws.{relation-IsSound}
use trusted_juju.Agent.RelationLifecycle.{Answers, RelationLifecycle}
use trusted_juju.Agent.RelationStates.{
  relation_actions, RelationMachine, expected, transition_state,
}
use trusted_juju.Agent.RelationRuns.{Faulty, IsResponsive}
use trusted_juju.Agent.RelationContracts.{
  Agrees, IsKnown, is_departing, BeforeIf, Before, relation-Honours,
}
use trusted_juju.Agent.RelationLaws.{Settled, Settled-of}

pub known-listed :
    (s : State) → IsKnown s → (ts : List Transition) × (get_transitions s relation_workflow ≡ ok ts)
unfolding get_transitions relation_workflow collect ids_of lookup insert get_transition expected
known-listed none h = (_, refl)
known-listed (some s) (e, h) = elim (Bool-cases (str_eq s "up")) [
  | inl a ↦ at "up" a (_, refl)
  | inr a ↦ elim (Bool-cases (str_eq s "down")) [
    | inl b ↦ at "down" b (_, refl)
    | inr b ↦ elim (Bool-cases (str_eq s "departed")) [
      | inl c ↦ at "departed" c (_, refl)
      | inr c ↦ elim (Bool-cases (str_eq s "error")) [
        | inl d ↦ at "error" d (_, refl)
        | inr d ↦ absurd (none_some e (rw (a, b, c, d) at h))
      ]
    ]
  ]
]
  where
    at :
        (t : String)
        → str_eq s t ≡ true
        → (ts : List Transition) × (get_transitions (some t) relation_workflow ≡ ok ts)
        → (ts : List Transition) × (get_transitions (some s) relation_workflow ≡ ok ts)
    at t same h =
        subst (λ u. (ts : List Transition) × (get_transitions (some u) relation_workflow ≡ ok ts))
          (sym ((eq_iff s t).0 same)) h

    none_some : (e : Bool × Bool) → ◌≡◌ {A = Option (Bool × Bool)} none (some e) → ⊥
    none_some e p = cc

-- What leads to "departed" is a transition that departs.
abbrev departs_by : Transition → Bool
departs_by t =
    if state_eq t.destination (some "departed") then is_departing t.transition_id else true

abbrev departs_in : State → Bool
departs_in s = elim (get_transitions s relation_workflow) [
  | raise e ↦ false
  | ok ts ↦ all departs_by ts
]

all_depart : all (λ (row : State × List String). departs_in row.0) relation_workflow.sources ≡ true
unfolding relation_workflow get_transitions lookup insert
all_depart = refl

departing :
    (s : State) (ts : List Transition)
    → get_transitions s relation_workflow ≡ ok ts
    → all departs_by ts ≡ true
departing s ts a =
    let (ids, found) = get_transitions-ids s relation_workflow ts a in
    subst
      (λ (r : Result Error (List Transition)).
        elim r [ raise e ↦ false | ok us ↦ all departs_by us ] ≡ true)
      a (all-sources departs_in relation_workflow.sources s ids all_depart found)

first_to-departs :
    (ts : List Transition) (t : Transition)
    → all departs_by ts ≡ true
    → first_to (some "departed") ts ≡ some t
    → (is_departing t.transition_id ≡ true) × (has_id t.transition_id ts ≡ true)
unfolding first_to
first_to-departs [] t h e = absurd (cc)
first_to-departs (u ∷ ts) t h e =
    let (fits, rest) = both_of_&& (departs_by u) (all departs_by ts) h in
    elim (Bool-cases (state_eq u.destination (some "departed"))) [
      | inl f ↦
          subst
            (λ (x : Transition).
              (is_departing x.transition_id ≡ true) × (has_id x.transition_id (u ∷ ts) ≡ true))
            (some_eq u t (rw f at e)) (rw f at fits, ground (arith, eq_refl u.transition_id))
      | inr f ↦
          let (departs, among) = first_to-departs ts t rest (rw f at e) in (departs, ground arith)
    ]
  where
    some_eq : (a b : Transition) → ◌≡◌ {A = Option Transition} (some a) (some b) → a ≡ b
    some_eq a b p = cc

module _ (answers : Answers) (responsive : IsResponsive answers) where
  Settled-returns : (r : Answer RelationLifecycle) → Settled r → (b : Bool) × (r.1 ≡ ok b)
  Settled-returns r h = (h.value, h.returns)

  fire_to-returns :
      (o : Option Transition) (m : RelationMachine) (ts : List Transition)
      → IsKnown (get_state m)
      → get_available_transitions relation_workflow m ≡ ok ts
      → first_to (some "departed") ts ≡ o
      → (b : Bool) × ((fire_to
            (fire_transition relation_workflow (relation_actions answers) 1)
            o
            m).1
          ≡ ok b)
  unfolding get_available_transitions
  fire_to-returns none m ts k a f = (false, refl)
  fire_to-returns (some t) m ts k a f =
      let (departs, among) = first_to-departs ts t (departing (get_state m) ts a) f in
      Settled-returns
        (fire_transition relation_workflow (relation_actions answers) 1 t.transition_id [] m)
        (Settled-of answers responsive
          (fire_transition relation_workflow (relation_actions answers) 1 t.transition_id [] m)
          (fire_transition-Safe relation_workflow (λ _. 0) relation-IsSound
            (relation_actions answers) Agrees Before (λ _. Faulty answers)
            (relation-Honours answers) 1 t.transition_id [] m ts a among (omega arith)
            (subst (λ b. BeforeIf b (get_state m) m.world) (sym departs) k)))

  -- Whatever runs of a relation, it can depart from every state of the workflow, while the executor runs.
  pub depart-returns :
      (m : RelationMachine)
      → IsKnown (get_state m)
      → (b : Bool) × ((transition_state answers (some "departed") m).1 ≡ ok b)
  unfolding transition_state Machine.transition_state has_state relation_workflow insert ids_of
      get_available_transitions
  depart-returns m k =
      let (ts, a) = known-listed (get_state m) k in
      subst
        (λ r.
          (b : Bool) × ((fire_to_among
              (fire_transition relation_workflow (relation_actions answers) 1) (some "departed") r
              m).1
            ≡ ok b))
        (sym a) (fire_to-returns (first_to (some "departed") ts) m ts k a refl)
