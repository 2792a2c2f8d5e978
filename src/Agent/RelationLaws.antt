-- ===== src/Agent/RelationLaws.antt =====
-- juju/unit/workflow.py, `RelationWorkflowState`: what its calls leave of the watcher and the
-- scheduler.
use trusted_juju.Prelude.{
  String, Bool, true, false, ◌||◌, none, some, List, ◌≡◌, refl, ◌∙◌, ap, sym, ok, raise, arith, inl,
  inr, Bool-cases, Option-cases, subst,
}
use trusted_juju.Prelude.Dict.{Dict}
use trusted_juju.Workflow.Defs.{State, Transition, get_transitions, has_id}
use trusted_juju.Workflow.Machine.{
  Answer, get_state, get_inflight, get_available_transitions, first_automatic, fire_first,
  fire_automatic_from, fire_automatic_transitions, fire_transition,
}
use trusted_juju.Workflow.Machine
use trusted_juju.Workflow.Check.{all, all-sources, get_transitions-ids}
use trusted_juju.Workflow.Safe.{Safe, fire_transition-Safe, synchronize-Safe}
use trusted_juju.Workflow.Unit.{relation_workflow}
use trusted_juju.Workflow.UnitLaws.{relation-IsSound}
use trusted_juju.Agent.RelationLifecycle.{
  Answers, RelationLifecycle, watching, executing, start, stop, halt, is_blocked,
}
use trusted_juju.Agent.RelationStates.{
  relation_actions, RelationMachine, fire, expected, then_start, restore, then_synchronize,
  synchronize,
}
use trusted_juju.Agent.RelationRuns.{
  Faulty, IsResponsive, Faulty-elim, start-Started, start-Faulty, executing-halt, watching-halt,
}
use trusted_juju.Agent.RelationContracts.{RunsAs, Agrees, Before, agreed-Before, relation-Honours}

-- A call has returned, and left the watcher and the scheduler as the stored state wants.
pub record Settled (r : Answer RelationLifecycle) : Type 0 where
  pub value : Bool
  pub returns : r.1 ≡ ok value
  pub agrees : Agrees (get_state r.0) r.0.world

module _ (answers : Answers) (responsive : IsResponsive answers) where
  pub Settled-of : (r : Answer RelationLifecycle) → Safe Agrees (λ _. Faulty answers) r → Settled r
  Settled-of (m, ok b) h = record { value = b; returns = refl; agrees = h }
  Settled-of (m, raise e) h = Faulty-elim answers responsive h.1

  stop-returns : (b : Bool) (l : RelationLifecycle) → stop answers b l ≡ (halt b l, true)
  unfolding stop is_blocked
  stop-returns b l = ground (arith, responsive.executor_runs)

  start-returns : (w h : Bool) (l : RelationLifecycle) → (start answers w h l).1 ≡ true
  start-returns w h l = elim (Bool-cases (start answers w h l).1) [
    | inl e ↦ e
    | inr e ↦ Faulty-elim answers responsive (start-Faulty answers w h l e)
  ]

  started :
      (w h : Bool) (l : RelationLifecycle)
      → let r = start answers w h (halt true l) in
        (r.1 ≡ true) × ((watching r.0 ≡ (w || false)) × (executing r.0 ≡ (h || false)))
  started w h l =
      let returns = start-returns w h (halt true l) in
      let s = start-Started answers w h (halt true l) returns in
      (
        returns,
        (
          s.watches_run returns ∙ ap (λ b. w || b) (watching-halt true l),
          s.hooks_run ∙ ap (λ b. h || b) (executing-halt true l),
        ),
      )

  pub restored :
      (e : Bool × Bool) (l : RelationLifecycle)
      → ((restore answers e l).1 ≡ true) × RunsAs (some e) (restore answers e l).0
  unfolding restore
  restored e l =
      subst
        (λ (r : RelationLifecycle × Bool).
          ((then_start answers e r).1 ≡ true) × RunsAs (some e) (then_start answers e r).0)
        (sym (stop-returns true l)) (by_state e)
    where
      by_state :
          (e : Bool × Bool)
          → ((then_start answers e (halt true l, true)).1 ≡ true)
            × RunsAs (some e) (then_start answers e (halt true l, true)).0
      by_state (false, false) = (refl, (watching-halt true l, executing-halt true l))
      by_state (false, true) = started false true l
      by_state (true, false) = started true false l
      by_state (true, true) = started true true l

abbrev is_expected : State → Bool
is_expected s = elim (expected s) [ none ↦ false | some e ↦ true ]

all_expected :
    all (λ (row : State × List String). is_expected row.0) relation_workflow.sources ≡ true
unfolding relation_workflow expected
all_expected = refl

pub listed-expected :
    (s : State) (ts : List Transition)
    → get_transitions s relation_workflow ≡ ok ts
    → (e : Bool × Bool) × (expected s ≡ some e)
listed-expected s ts a =
    let (ids, found) = get_transitions-ids s relation_workflow ts a in
    let is = all-sources is_expected relation_workflow.sources s ids all_expected found in
    elim (Option-cases (expected s)) [ inl e ↦ absurd (ground arith) | inr (e, h) ↦ (e, h) ]

-- A transition of a relation that is available where the watcher and the scheduler run as the state
-- wants returns, where the executor runs and no call of ZooKeeper fails, and leaves them as the state it ends in wants: both
-- run in "up", only the watcher in "error", and neither in "down" and "departed".
pub fire-Agrees :
    (answers : Answers) (id : String) (v : Dict String) (m : RelationMachine) (ts : List Transition)
    → IsResponsive answers
    → get_available_transitions relation_workflow m ≡ ok ts
    → has_id id ts ≡ true
    → Agrees (get_state m) m.world
    → Settled (fire answers id v m)
unfolding fire
fire-Agrees answers id v m ts responsive a b h =
    Settled-of answers responsive
      (fire_transition relation_workflow (relation_actions answers) 1 id v m)
      (fire_transition-Safe relation_workflow (λ _. 0) relation-IsSound (relation_actions answers)
        Agrees Before (λ _. Faulty answers) (relation-Honours answers) 1 id v m ts a b (omega arith)
        (agreed-Before id (get_state m) m.world h))

then_synchronize-Settled :
    (answers : Answers) (m : RelationMachine) (ts : List Transition) (r : RelationLifecycle × Bool)
    (e : Bool × Bool)
    → IsResponsive answers
    → get_available_transitions relation_workflow m ≡ ok ts
    → ((id : String) → get_inflight m ≡ some id → has_id id ts ≡ true)
    → expected (get_state m) ≡ some e
    → r.1 ≡ true
    → RunsAs (some e) r.0
    → Settled (then_synchronize answers r m)
unfolding get_available_transitions get_state get_inflight
then_synchronize-Settled answers m ts (l, true) e responsive a flight expects returns runs =
    let agrees = subst (λ o. RunsAs o l) (sym expects) runs in
    Settled-of answers responsive
      (Machine.synchronize relation_workflow (relation_actions answers) 1 (record m { world = l }))
      (synchronize-Safe relation_workflow (λ _. 0) relation-IsSound (relation_actions answers)
        Agrees Before (λ _. Faulty answers) (relation-Honours answers) 1 (record m { world = l }) ts
        a (λ _. omega arith) (λ _. agrees)
        (λ id e. (flight id e, agreed-Before id (get_state m) l agrees)))
then_synchronize-Settled answers m ts (l, false) e responsive a flight expects returns runs =
    absurd (cc)

synchronize-restored :
    (answers : Answers) (m : RelationMachine) (e : Bool × Bool)
    → expected (get_state m) ≡ some e
    → synchronize answers m ≡ then_synchronize answers (restore answers e m.world) m
unfolding synchronize
synchronize-restored answers m e expects = ground arith

-- After a restart of the agent a synchronization returns, where the executor runs and no call of
-- ZooKeeper fails, and the watcher and the scheduler run as the state it ends in wants, whatever ran before, where the stored
-- state is one of the workflow and a transition in flight is one of that state.
pub synchronize-Agrees :
    (answers : Answers) (m : RelationMachine) (ts : List Transition)
    → IsResponsive answers
    → get_available_transitions relation_workflow m ≡ ok ts
    → ((id : String) → get_inflight m ≡ some id → has_id id ts ≡ true)
    → Settled (synchronize answers m)
unfolding get_available_transitions
synchronize-Agrees answers m ts responsive a flight =
    let (e, expects) = listed-expected (get_state m) ts a in
    let (returns, runs) = restored answers responsive e m.world in
    rw (synchronize-restored answers m e expects) (
      then_synchronize-Settled answers m ts (restore answers e m.world) e responsive a flight
        expects returns runs)
