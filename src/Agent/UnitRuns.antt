-- ===== src/Agent/UnitRuns.antt =====
-- juju/unit/lifecycle.py, `UnitLifecycle`: what its calls do to the executor and to the unit's running,
-- by the way they end.
use trusted_juju.Prelude.{
  String, Bool, true, false, Option, none, some, List, [], ◌∷◌, if◌then◌else◌, ◌≡◌, Bool-cases, inl,
  inr, ◌++◌,
}
use trusted_juju.Agent.Relations.{Relations, RelationWorkflowState}
use trusted_juju.Agent.Memberships.{load_relations}
use trusted_juju.Agent.UnitLifecycle.{
  Failure, file_not_found, charm_error, other, failure, assertion, never, unfinished, Environment,
  UnitLifecycle, Run, then_run, fault_of, invoke, execute_hook, hooks_if, install, load_if_none,
  with_workflows, workflows_if, cluster_at, on_relations,
}

-- Of the executor and of the unit: it runs, it does not, or either is right.
abbrev pub Wants : Type 0
Wants = Option Bool × Option Bool

abbrev Holds : Option Bool → Bool → Type 0
Holds none b = Unit
Holds (some wanted) b = b ≡ wanted

abbrev pub Meets : Wants → UnitLifecycle → Type 0
Meets w u = Holds w.0 u.executor × Holds w.1 u.running

abbrev pub runs : Option Bool
runs = some true

abbrev pub rests : Option Bool
rests = some false

-- A call that returns leaves the first, one that raises what a transition handles the second, and no
-- assertion fails and nothing waits for a stopped executor.
abbrev pub RunOwes : Wants → Wants → Run → Type 0
RunOwes good bad (u, none) = Meets good u
RunOwes good bad (u, some (failure file_not_found)) = Meets bad u
RunOwes good bad (u, some (failure charm_error)) = Meets bad u
RunOwes good bad (u, some (failure other)) = Unit
RunOwes good bad (u, some assertion) = false ≡ true
RunOwes good bad (u, some never) = false ≡ true
RunOwes good bad (u, some unfinished) = false ≡ true

pub then_run-Owes :
    (good mid bad : Wants) (r : Run) (next : UnitLifecycle → Run)
    → RunOwes mid bad r
    → ((u : UnitLifecycle) → Meets mid u → RunOwes good bad (next u))
    → RunOwes good bad (then_run r next)
then_run-Owes good mid bad (u, none) next h k = k u h
then_run-Owes good mid bad (u, some (failure file_not_found)) next h k = h
then_run-Owes good mid bad (u, some (failure charm_error)) next h k = h
then_run-Owes good mid bad (u, some (failure other)) next h k = h
then_run-Owes good mid bad (u, some assertion) next h k = h
then_run-Owes good mid bad (u, some never) next h k = h
then_run-Owes good mid bad (u, some unfinished) next h k = h

pub weaken-RunOwes :
    (good bad worse : Wants) (r : Run)
    → ((u : UnitLifecycle) → Meets bad u → Meets worse u)
    → RunOwes good bad r
    → RunOwes good worse r
weaken-RunOwes good bad worse (u, none) k h = h
weaken-RunOwes good bad worse (u, some (failure file_not_found)) k h = k u h
weaken-RunOwes good bad worse (u, some (failure charm_error)) k h = k u h
weaken-RunOwes good bad worse (u, some (failure other)) k h = h
weaken-RunOwes good bad worse (u, some assertion) k h = h
weaken-RunOwes good bad worse (u, some never) k h = h
weaken-RunOwes good bad worse (u, some unfinished) k h = h

pub then-Owes :
    (good bad : Wants) (b : Bool) (r s : Run)
    → b ≡ true
    → RunOwes good bad r
    → RunOwes good bad (if b then r else s)
then-Owes good bad true r s e h = h
then-Owes good bad false r s e h = absurd (cc)

pub else-Owes :
    (good bad : Wants) (b : Bool) (r s : Run)
    → b ≡ false
    → RunOwes good bad s
    → RunOwes good bad (if b then r else s)
else-Owes good bad true r s e h = absurd (cc)
else-Owes good bad false r s e h = h

pub ended-Owes :
    (w : Wants) (o : Option Failure) (u : UnitLifecycle) → Meets w u → RunOwes w w (u, fault_of o)
ended-Owes w none u h = h
ended-Owes w (some file_not_found) u h = h
ended-Owes w (some charm_error) u h = h
ended-Owes w (some other) u h = tt

queued-Owes :
    (env : Environment) (name : String) (r : Option Bool) (u : UnitLifecycle)
    → Meets (runs, r) u
    → RunOwes (runs, r) (runs, r) (execute_hook env name false u)
unfolding execute_hook invoke
queued-Owes env name r u h =
    then-Owes (runs, r) (runs, r) u.executor _ _ (h.0)
      (ended-Owes (runs, r) (env.hook name) (record u { hooks = u.hooks ++ name ∷ [] }) h)

pub hooks_if-Owes :
    (env : Environment) (fires : Bool) (names : List String) (r : Option Bool) (u : UnitLifecycle)
    → Meets (runs, r) u
    → RunOwes (runs, r) (runs, r) (hooks_if env fires names u)
unfolding hooks_if
hooks_if-Owes env false names r u h = h
hooks_if-Owes env true [] r u h = h
hooks_if-Owes env true (name ∷ names) r u h =
    then_run-Owes (runs, r) (runs, r) (runs, r) (execute_hook env name false u)
      (hooks_if env true names) (queued-Owes env name r u h) (hooks_if-Owes env true names r)

pub install-Owes :
    (env : Environment) (fires : Bool) (r : Option Bool) (u : UnitLifecycle)
    → Meets (runs, r) u
    → RunOwes (runs, r) (runs, r) (install env fires u)
unfolding install
install-Owes env fires r u h = hooks_if-Owes env fires ("install" ∷ []) r u h

-- With the executor running, a call on a relation fails by another exception at most.
on_relations-Owes :
    (r : Option Bool) (bad : Wants) (u : UnitLifecycle) (done : Relations × Bool)
    → Meets (runs, r) u
    → RunOwes (runs, r) bad (on_relations u done)
on_relations-Owes r bad u (relations, true) h = h
on_relations-Owes r bad u (relations, false) h = rw (h.0) tt

pub with_workflows-Owes :
    (r : Option Bool) (bad : Wants)
    (f : String → RelationWorkflowState → RelationWorkflowState × Bool) (u : UnitLifecycle)
    → Meets (runs, r) u
    → RunOwes (runs, r) bad (with_workflows f u)
unfolding with_workflows
with_workflows-Owes r bad f u h = on_relations-Owes r bad u _ h

pub workflows_if-Owes :
    (r : Option Bool) (bad : Wants) (b : Bool)
    (f : String → RelationWorkflowState → RelationWorkflowState × Bool) (u : UnitLifecycle)
    → Meets (runs, r) u
    → RunOwes (runs, r) bad (workflows_if b f u)
unfolding workflows_if
workflows_if-Owes r bad false f u h = h
workflows_if-Owes r bad true f u h = with_workflows-Owes r bad f u h

pub load_if_none-Owes :
    (r : Option Bool) (bad : Wants) (env : Environment) (u : UnitLifecycle)
    → Meets (runs, r) u
    → RunOwes (runs, r) bad (load_if_none env u)
unfolding load_if_none
load_if_none-Owes r bad env u h = elim (Bool-cases u.loaded) [
  | inl e ↦ then-Owes (runs, r) bad u.loaded _ _ e h
  | inr e ↦
      else-Owes (runs, r) bad u.loaded _ _ e
        (on_relations-Owes r bad (record u { loaded = true })
          (load_relations (cluster_at env u) u.relations) h)
]
