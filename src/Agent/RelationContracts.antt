-- ===== src/Agent/RelationContracts.antt =====
-- juju/unit/workflow.py, `RelationWorkflowState`: the watcher and the scheduler of a relation run as
-- its workflow's state wants, through every transition.
use trusted_juju.Prelude.{
  String, Bool, true, false, not, ◌&&◌, ◌||◌, Option, none, some, ◌≡◌, refl, ◌∙◌, sym, ap, All,
  subst, str_eq, if◌then◌else◌, inl,
}
use trusted_juju.Prelude.Dict.{Dict, lookup, insert}
use trusted_juju.Workflow.Defs.{State, Transition, get_transition, get_transitions}
use trusted_juju.Workflow.Machine.{Outcome, returned, crashed}
use trusted_juju.Workflow.Unit.{relation_workflow}
use trusted_juju.Workflow.Contracts.{Owes, Honours}
use trusted_juju.Workflow.Table.{is_listed, Row, table-Honours, ◌⨾◌}
use trusted_juju.Agent.RelationLifecycle.{
  Answers, RelationLifecycle, watching, executing, start, stop,
}
use trusted_juju.Agent.RelationStates.{
  called, depart_variables, then_depart, do_depart, relation_actions, expected,
}
use trusted_juju.Agent.RelationRuns.{
  Faulty, start-Started, start-Faulty, stop-halts, executing-halt, watching-halt,
}

-- The watcher and the scheduler run as expected, and something is.
abbrev pub RunsAs : Option (Bool × Bool) → RelationLifecycle → Type 0
RunsAs none l = false ≡ true
RunsAs (some (watches, hooks)) l = (watching l ≡ watches) × (executing l ≡ hooks)

abbrev pub Agrees : State → RelationLifecycle → Type 0
Agrees s l = RunsAs (expected s) l

-- The state is one of the workflow's.
abbrev pub IsKnown : State → Type 0
IsKnown s = (e : Bool × Bool) × (expected s ≡ some e)

runs-some :
    (o : Option (Bool × Bool)) (l : RelationLifecycle)
    → RunsAs o l
    → (e : Bool × Bool) × (o ≡ some e)
runs-some none l h = absurd (cc)
runs-some (some e) l h = (e, refl)

pub IsKnown-of : (s : State) (l : RelationLifecycle) → Agrees s l → IsKnown s
IsKnown-of s l h = runs-some (expected s) l h

abbrev pub is_departing : String → Bool
is_departing id = str_eq id "depart" || str_eq id "down_depart" || str_eq id "error_depart"

-- A relation departs also when its lifecycle is stopped already.
abbrev pub BeforeIf : Bool → State → RelationLifecycle → Type 0
BeforeIf true s l = IsKnown s
BeforeIf false s l = Agrees s l

abbrev pub Before : String → State → RelationLifecycle → Type 0
Before id s l = BeforeIf (is_departing id) s l

pub agreed-Before : (id : String) (s : State) (l : RelationLifecycle) → Agrees s l → Before id s l
agreed-Before id s l h = by_test (is_departing id)
  where
    by_test : (b : Bool) → BeforeIf b s l
    by_test true = IsKnown-of s l h
    by_test false = h

module _ (answers : Answers) where
  abbrev Owing : Transition → State → Outcome → RelationLifecycle → Type 0
  Owing = Owes relation_workflow (relation_actions answers) Agrees Before (λ _. Faulty answers)

  -- A start that raises is an action that crashes.
  called-Owes :
      (t : Transition) (s : State) (r : RelationLifecycle × Bool)
      → (r.1 ≡ true → Agrees t.destination r.0)
      → (r.1 ≡ false → Faulty answers)
      → Owing t s (called r).0 (called r).1
  called-Owes t s (l, true) h k = h refl
  called-Owes t s (l, false) h k = k refl

relation_is_listed : is_listed relation_workflow ≡ true
unfolding is_listed relation_workflow get_transition get_transitions lookup insert
relation_is_listed = refl

module _ (answers : Answers) where
  abbrev RowOf : String × Transition → Type 0
  RowOf row =
      Row relation_workflow (relation_actions answers) Agrees Before (λ _. Faulty answers) row.0
        row.1

  -- A start that returns leaves the watcher and the scheduler of a lifecycle running.
  all_runs :
      (l : RelationLifecycle)
      → (start answers true true l).1 ≡ true
      → (watching (start answers true true l).0 ≡ true)
        × (executing (start answers true true l).0 ≡ true)
  all_runs l h = let s = start-Started answers true true l h in (s.watches_run h, s.hooks_run)

  -- A watcher that runs goes on while the scheduler is started.
  watches_on :
      (l : RelationLifecycle)
      → watching l ≡ true
      → (start answers false true l).1 ≡ true
      → (watching (start answers false true l).0 ≡ true)
        × (executing (start answers false true l).0 ≡ true)
  watches_on l h returns =
      let s = start-Started answers false true l returns in (s.watches_run returns ∙ h, s.hooks_run)

  -- A stop that returns leaves neither running, or only the watcher.
  stopped_runs :
      (b : Bool) (l : RelationLifecycle)
      → (stop answers b l).1 ≡ true
      → (watching (stop answers b l).0 ≡ (not b && watching l))
        × (executing (stop answers b l).0 ≡ false)
  stopped_runs b l h =
      let same = (stop-halts answers b l).0 h in
      (ap watching same ∙ watching-halt b l, ap executing same ∙ executing-halt b l)

  -- An entry whose action calls the lifecycle.
  called-Row :
      (id : String) (t : Transition) (call : RelationLifecycle → RelationLifecycle × Bool)
      → ((l : RelationLifecycle) → (call l).1 ≡ false → Faulty answers)
      → is_departing id ≡ false
      → ((l : RelationLifecycle) → relation_actions answers l id ≡ called (call l))
      → ((l : RelationLifecycle)
          → Agrees t.source l
          → (call l).1 ≡ true
          → Agrees t.destination (call l).0)
      → RowOf (id, t)
  called-Row id t call faults staying same agrees = record {
    owes = λ l h.
        subst (λ (r : Outcome × RelationLifecycle). Owing answers t t.source r.0 r.1) (sym (same l))
          (called-Owes answers t t.source (call l)
            (agrees l (subst (λ b. BeforeIf b t.source l) staying h)) (faults l));
    automatic = λ _ l h. agreed-Before id t.source l h;
  }

  -- A departure that returns leaves neither running, whatever ran before.
  departs_on :
      (t : Transition) (s : State) (v : Option (Dict String)) (b : Bool) (l : RelationLifecycle)
      → answers.executor ≡ b
      → Agrees t.destination l
      → Owing answers t s (if b then returned v else crashed) l
  departs_on t s v true l e h = h
  departs_on t s v false l e h = inl e

  then_depart-Owes :
      (t : Transition) (s : State) (r : RelationLifecycle × Bool)
      → (r.1 ≡ true → (watching r.0 ≡ false) × (executing r.0 ≡ false))
      → (r.1 ≡ false → Faulty answers)
      → ((l : RelationLifecycle)
          → (watching l ≡ false) × (executing l ≡ false)
          → Agrees t.destination l)
      → Owing answers t s (then_depart answers r).0 (then_depart answers r).1
  unfolding watching executing
  then_depart-Owes t s (l, false) h k agrees = k refl
  then_depart-Owes t s (l, true) h k agrees =
      departs_on t s (depart_variables answers.broken) answers.executor
        (record l { error_handler = false }) refl
        (agrees (record l { error_handler = false }) (h refl))

  departing-Row :
      (id : String) (t : Transition)
      → is_departing id ≡ true
      → ((l : RelationLifecycle) → relation_actions answers l id ≡ do_depart answers l)
      → ((l : RelationLifecycle)
          → (watching l ≡ false) × (executing l ≡ false)
          → Agrees t.destination l)
      → RowOf (id, t)
  unfolding do_depart
  departing-Row id t departs same agrees = record {
    owes = λ l h.
        subst (λ (r : Outcome × RelationLifecycle). Owing answers t t.source r.0 r.1) (sym (same l))
          (then_depart-Owes t t.source (stop answers true l) (stopped_runs true l)
            (stop-halts answers true l).1 agrees);
    automatic = λ _ l h. agreed-Before id t.source l h;
  }

  started-Row :
      (id : String) (t : Transition) (watches : Bool)
      → is_departing id ≡ false
      → ((l : RelationLifecycle)
          → relation_actions answers l id ≡ called (start answers watches true l))
      → ((l : RelationLifecycle)
          → Agrees t.source l
          → (start answers watches true l).1 ≡ true
          → Agrees t.destination (start answers watches true l).0)
      → RowOf (id, t)
  started-Row id t watches =
      called-Row id t (start answers watches true) (start-Faulty answers watches true)

  stopped-Row :
      (id : String) (t : Transition) (b : Bool)
      → is_departing id ≡ false
      → ((l : RelationLifecycle) → relation_actions answers l id ≡ called (stop answers b l))
      → ((l : RelationLifecycle)
          → Agrees t.source l
          → (stop answers b l).1 ≡ true
          → Agrees t.destination (stop answers b l).0)
      → RowOf (id, t)
  stopped-Row id t b = called-Row id t (stop answers b) (λ l. (stop-halts answers b l).1)

  relation_rows : All RowOf relation_workflow.transitions
  unfolding relation_workflow insert relation_actions expected
  relation_rows =
      started-Row "start" _ true refl (λ l. refl) (λ l h. all_runs l)
      ⨾ stopped-Row "stop" _ true refl (λ l. refl) (λ l h. stopped_runs true l)
      ⨾ started-Row "restart" _ true refl (λ l. refl) (λ l h. all_runs l)
      ⨾ stopped-Row "error" _ false refl (λ l. refl)
          (λ l h k. let (w, e) = stopped_runs false l k in (w ∙ h.0, e))
      ⨾ started-Row "reset" _ false refl (λ l. refl) (λ l h. watches_on l h.0)
      ⨾ departing-Row "depart" _ refl (λ l. refl) (λ l h. h)
      ⨾ departing-Row "down_depart" _ refl (λ l. refl) (λ l h. h)
      ⨾ departing-Row "error_depart" _ refl (λ l. refl) (λ l h. h)
      ⨾ tt

  pub relation-Honours :
      Honours relation_workflow (relation_actions answers) Agrees Before (λ _. Faulty answers)
  relation-Honours =
      table-Honours relation_workflow (relation_actions answers) Agrees Before (λ _. Faulty answers)
        relation_is_listed relation_rows
