-- ===== src/Agent/RelationRuns.antt =====
-- juju/unit/lifecycle.py, `UnitRelationLifecycle`: what starting and stopping do to the watcher and
-- the scheduler.
use trusted_juju.Prelude.{
  Bool, true, false, not, ◌&&◌, ◌||◌, Option, none, some, if◌then◌else◌, ◌≡◌, refl, ◌∙◌, ap, arith,
  ◌⊎◌, inl, inr, Bool-cases,
}
use trusted_juju.Scheduler.State.{Scheduler, next_change}
use trusted_juju.Scheduler.State
use trusted_juju.Agent.RelationLifecycle.{
  Answers, RelationLifecycle, watching, executing, run_scheduler, start_hooks, start_watcher,
  with_watcher, start, stop, halt, is_blocked,
}

-- The executor is stopped, or ZooKeeper has failed a call.
abbrev pub Faulty : Answers → Type 0
Faulty answers =
    (answers.executor ≡ false)
    ⊎ ((answers.watch_related_units ≡ false) ⊎ (answers.watcher_start ≡ false))

-- The executor runs, and no call of ZooKeeper fails.
pub record IsResponsive (answers : Answers) : Type 0 where
  pub executor_runs : answers.executor ≡ true
  pub watch : answers.watch_related_units ≡ true
  pub starts : answers.watcher_start ≡ true

pub Faulty-elim {ℓ} : {A : Type ℓ} (answers : Answers) → IsResponsive answers → Faulty answers → A
Faulty-elim answers r (inl h) = let e = r.executor_runs in absurd (cc)
Faulty-elim answers r (inr (inl h)) = let e = r.watch in absurd (cc)
Faulty-elim answers r (inr (inr h)) = let e = r.starts in absurd (cc)

running-run_scheduler : (s : Scheduler) → (run_scheduler s).running ≡ true
unfolding run_scheduler State.start next_change
running-run_scheduler s = ground arith

pub executing-halt : (b : Bool) (l : RelationLifecycle) → executing (halt b l) ≡ false
unfolding executing halt State.stop
executing-halt b l = ground arith

pub watching-halt : (b : Bool) (l : RelationLifecycle) → watching (halt b l) ≡ (not b && watching l)
unfolding watching halt
watching-halt b l = ground arith

start_hooks-lem :
    (b : Bool) (l : RelationLifecycle)
    → (executing (start_hooks b l) ≡ (b || executing l)) × ((start_hooks b l).watcher ≡ l.watcher)
unfolding executing start_hooks
start_hooks-lem b l = ground (arith, running-run_scheduler l.scheduler)

-- A start that returns has the watcher and the scheduler run, and one that raises has met a failure.
pub record Started (answers : Answers) (watches hooks : Bool) (l : RelationLifecycle)
    (r : RelationLifecycle × Bool) : Type 0 where
  pub watches_run : r.1 ≡ true → watching r.0 ≡ (watches || watching l)
  pub hooks_run : executing r.0 ≡ (hooks || executing l)
  pub fails : r.1 ≡ false → Faulty answers

start_watcher-Started :
    (answers : Answers) (watches : Bool) (l : RelationLifecycle)
    → Started answers watches false l (start_watcher answers watches l)
unfolding start_watcher watching executing
start_watcher-Started answers watches l = record {
  watches_run = λ h. ground arith;
  hooks_run = ground arith;
  fails = λ h. inr (inr (ground arith));
}

created-Started :
    (answers : Answers) (watches b : Bool) (l : RelationLifecycle)
    → answers.watch_related_units ≡ b
    → l.watcher ≡ none
    → Started answers watches false l (
        if b then start_watcher answers watches (record l { watcher = some false }) else (l, false))
unfolding watching executing
created-Started answers watches true l a e =
    let s = start_watcher-Started answers watches (record l { watcher = some false }) in
    record {
      watches_run = λ h. ground (arith, s.watches_run h);
      hooks_run = s.hooks_run;
      fails = s.fails;
    }
created-Started answers watches false l a e = record {
  watches_run = λ h. absurd (cc);
  hooks_run = refl;
  fails = λ h. inr (inl a);
}

with_watcher-Started :
    (answers : Answers) (watches : Bool) (l : RelationLifecycle)
    → Started answers watches false l (with_watcher answers watches l)
unfolding with_watcher
with_watcher-Started answers watches l = by_watcher (l.watcher) refl
  where
    by_watcher :
        (o : Option Bool)
        → l.watcher ≡ o
        → Started answers watches false l (elim o [
          | none ↦
              if answers.watch_related_units
              then start_watcher answers watches (record l { watcher = some false })
              else (l, false)
          | some running ↦ start_watcher answers watches l
        ])
    by_watcher none e = created-Started answers watches answers.watch_related_units l refl e
    by_watcher (some running) e = start_watcher-Started answers watches l

watching-eq : (l m : RelationLifecycle) → l.watcher ≡ m.watcher → watching l ≡ watching m
unfolding watching
watching-eq l m e = ap (λ (o : Option Bool). elim o [ none ↦ false | some running ↦ running ]) e

blocked_stopped :
    (answers : Answers) (l : RelationLifecycle)
    → is_blocked answers l ≡ true
    → answers.executor ≡ false
unfolding is_blocked
blocked_stopped answers l h = ground arith

unblocked-Started :
    (answers : Answers) (watches hooks : Bool) (l : RelationLifecycle)
    → Started answers watches hooks l (with_watcher answers watches (start_hooks hooks l))
unblocked-Started answers watches hooks l =
    let s = with_watcher-Started answers watches (start_hooks hooks l) in
    let (runs, same) = start_hooks-lem hooks l in
    record {
      watches_run =
          λ h. s.watches_run h ∙ ap (λ b. watches || b) (watching-eq (start_hooks hooks l) l same);
      hooks_run = s.hooks_run ∙ runs;
      fails = s.fails;
    }

-- The stop halts, or waits while the executor is stopped.
pub stop-halts :
    (answers : Answers) (b : Bool) (l : RelationLifecycle)
    → ((stop answers b l).1 ≡ true → (stop answers b l).0 ≡ halt b l)
      × ((stop answers b l).1 ≡ false → Faulty answers)
unfolding stop
stop-halts answers b l = elim (Bool-cases (is_blocked answers l)) [
  | inl e ↦ rw e (λ h. absurd (cc), λ _. inl (blocked_stopped answers l e))
  | inr e ↦ rw e (λ _. refl, λ h. absurd (cc))
]

pub start-Started :
    (answers : Answers) (watches hooks : Bool) (l : RelationLifecycle)
    → (start answers watches hooks l).1 ≡ true
    → Started answers watches hooks l (start answers watches hooks l)
unfolding start
start-Started answers watches hooks l returns = elim (Bool-cases (is_blocked answers l)) [
  | inl e ↦ absurd (ground (arith, e, returns))
  | inr e ↦ rw e (unblocked-Started answers watches hooks l)
]

pub start-Faulty :
    (answers : Answers) (watches hooks : Bool) (l : RelationLifecycle)
    → (start answers watches hooks l).1 ≡ false
    → Faulty answers
unfolding start
start-Faulty answers watches hooks l h = elim (Bool-cases (is_blocked answers l)) [
  | inl e ↦ inl (blocked_stopped answers l e)
  | inr e ↦ (unblocked-Started answers watches hooks l).fails (rw e at h)
]
