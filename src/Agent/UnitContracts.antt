-- ===== src/Agent/UnitContracts.antt =====
-- juju/unit/workflow.py, `UnitWorkflowState`: whether the executor and the lifecycle run in each state,
-- through every transition.
use trusted_juju.Prelude.{
  String, Bool, true, false, Option, none, some, ◌≡◌, refl, sym, ◌∙◌, subst, All, if◌then◌else◌,
  str_eq,
}
use trusted_juju.Prelude.Dict.{lookup, insert}
use trusted_juju.Workflow.Defs.{State, Transition, state_eq, get_transition, get_transitions}
use trusted_juju.Workflow.Machine.{Outcome}
use trusted_juju.Workflow.Unit.{unit_workflow}
use trusted_juju.Workflow.Contracts.{Owes, Honours}
use trusted_juju.Workflow.Table.{is_listed, Row, table-Honours, ◌⨾◌}
use trusted_juju.Agent.UnitLifecycle.{
  Failure, file_not_found, charm_error, other, failure, assertion, never, unfinished, Environment,
  UnitLifecycle, Run, then_run, install, start, stop, configure, upgrade_charm,
}
use trusted_juju.Agent.UnitStates.{
  invoke_lifecycle, outcome_of, calls, unit_actions, preconditions_of,
}
use trusted_juju.Agent.UpgradeRuns.{upgrade_charm-Owes}
use trusted_juju.Agent.UnitRuns.{Wants, Meets, runs, rests, RunOwes, install-Owes}
use trusted_juju.Agent.StartRuns.{
  configure-Owes, stop_quietly-Owes, stop-Owes, start-Owes, start_quietly-Owes,
  retry_configure-Owes, IsSteady,
}

-- Between transitions: what `_get_preconditions` makes run in a state, but in "stop_error", in which the
-- lifecycle still runs.
unfoldable pub wanted : State → Wants
unfolding preconditions_of
wanted s =
    if state_eq s (some "stop_error")
    then (runs, runs)
    else (some (preconditions_of s none).0, some (preconditions_of s none).1)

-- Before the transition of an id. A failed upgrade has stopped the executor, and a failed retry of a
-- configuration has started the lifecycle.
unfoldable pub needed : String → State → Wants
unfolding wanted
needed id s =
    if str_eq id "upgrade_charm_error"
    then (rests, runs)
    else if str_eq id "error_retry_configure"
    then (runs, runs)
    else wanted s

abbrev pub Agrees : State → UnitLifecycle → Type 0
Agrees s u = Meets (wanted s) u

abbrev pub Needs : String → State → UnitLifecycle → Type 0
Needs id s u = Meets (needed id s) u

-- The exception of an action is neither an assertion's nor a wait without an end.
abbrev pub IsForeign : UnitLifecycle → Type 0
IsForeign u = (f : Failure) × (u.raised ≡ some (failure f))

pub unit_is_listed : is_listed unit_workflow ≡ true
unfolding is_listed unit_workflow get_transition get_transitions lookup insert
unit_is_listed = refl

module _ (env : Environment) where
  abbrev Owing : Transition → State → Outcome → UnitLifecycle → Type 0
  Owing = Owes unit_workflow (unit_actions env) Agrees Needs IsForeign

  abbrev RowOf : String × Transition → Type 0
  RowOf row = Row unit_workflow (unit_actions env) Agrees Needs IsForeign row.0 row.1

  -- What a failed action leaves is enough for its error transition, or for the state to stay.
  abbrev Suits : Wants → Transition → Type 0
  Suits bad t =
      (u : UnitLifecycle)
      → Meets bad u
      → (t.error_transition_id ≡ none → Agrees t.source u)
        × ((e : String) → t.error_transition_id ≡ some e → Needs e t.source u)

  invoked-Owes :
      (t : Transition) (bad : Wants) (r : Run)
      → RunOwes (wanted t.destination) bad r
      → Suits bad t
      → Owing t t.source (invoke_lifecycle r).0 (invoke_lifecycle r).1
  invoked-Owes t bad (u, none) h k = h
  invoked-Owes t bad (u, some (failure file_not_found)) h k = k u h
  invoked-Owes t bad (u, some (failure charm_error)) h k = k u h
  invoked-Owes t bad (u, some (failure other)) h k = (other, refl)
  invoked-Owes t bad (u, some assertion) h k = absurd (cc)
  invoked-Owes t bad (u, some never) h k = absurd (cc)
  invoked-Owes t bad (u, some unfinished) h k = absurd (cc)

  -- An entry whose action calls the lifecycle, and is not automatic or starts from its source's state.
  calls-Row :
      (id : String) (t : Transition) (bad : Wants) (call : UnitLifecycle → Run)
      → ((u : UnitLifecycle) → calls env id u ≡ some (call u))
      → ((u : UnitLifecycle) → Needs id t.source u → RunOwes (wanted t.destination) bad (call u))
      → Suits bad t
      → (t.automatic ≡ true → (u : UnitLifecycle) → Agrees t.source u → Needs id t.source u)
      → RowOf (id, t)
  unfolding unit_actions
  calls-Row id t bad call same runs_as suits starts = record {
    owes = λ u h.
        subst (λ o. Owing t t.source (outcome_of u o).0 (outcome_of u o).1) (sym (same u))
          (invoked-Owes t bad (call u) (runs_as u h) suits);
    automatic = starts;
  }

  -- An entry without an action.
  plain-Row :
      (id : String) (t : Transition)
      → ((u : UnitLifecycle) → calls env id u ≡ none)
      → ((u : UnitLifecycle) → Needs id t.source u → Agrees t.destination u)
      → (t.automatic ≡ true → (u : UnitLifecycle) → Agrees t.source u → Needs id t.source u)
      → RowOf (id, t)
  unfolding unit_actions
  plain-Row id t same keeps starts = record {
    owes = λ u h.
        subst (λ o. Owing t t.source (outcome_of u o).0 (outcome_of u o).1) (sym (same u))
          (keeps u h);
    automatic = starts;
  }

  -- Of a transition without an error transition, and of one with the error transition `e`.
  stays :
      (t : Transition) (bad : Wants)
      → t.error_transition_id ≡ none
      → ((u : UnitLifecycle) → Meets bad u → Agrees t.source u)
      → Suits bad t
  stays t bad lacks k u h = (λ _. k u h, λ e same. absurd (cc))

  goes :
      (t : Transition) (bad : Wants) (e : String)
      → t.error_transition_id ≡ some e
      → ((u : UnitLifecycle) → Meets bad u → Needs e t.source u)
      → Suits bad t
  goes t bad e has k u h = (
    λ lacks. absurd (cc),
    λ e' same. subst (λ i. Needs i t.source u) (some-eq e e' (sym has ∙ same)) (k u h),
  )
    where
      some-eq : (a b : String) → ◌≡◌ {A = Option String} (some a) (some b) → a ≡ b
      some-eq a b p = cc

  quietly :
      (id : String) (t : Transition)
      → t.automatic ≡ false
      → t.automatic ≡ true
      → (u : UnitLifecycle) → Agrees t.source u
      → Needs id t.source u
  quietly id t plain automatic u h = absurd (cc)

  moving-Row :
      (id : String) (t : Transition)
      → ((u : UnitLifecycle) → calls env id u ≡ none)
      → ((u : UnitLifecycle) → Needs id t.source u → Agrees t.destination u)
      → t.automatic ≡ false
      → RowOf (id, t)
  moving-Row id t same keeps plain = plain-Row id t same keeps (quietly id t plain)

  staying-Row :
      (id : String) (t : Transition) (bad : Wants) (call : UnitLifecycle → Run)
      → ((u : UnitLifecycle) → Needs id t.source u → RunOwes (wanted t.destination) bad (call u))
      → ((u : UnitLifecycle) → Meets bad u → Agrees t.source u)
      → ((u : UnitLifecycle) → calls env id u ≡ some (call u))
      → t.error_transition_id ≡ none
      → t.automatic ≡ false
      → RowOf (id, t)
  staying-Row id t bad call runs_as suits same lacks plain =
      calls-Row id t bad call same runs_as (stays t bad lacks suits) (quietly id t plain)

  going-Row :
      (id : String) (t : Transition) (bad : Wants) (e : String) (call : UnitLifecycle → Run)
      → ((u : UnitLifecycle) → Needs id t.source u → RunOwes (wanted t.destination) bad (call u))
      → ((u : UnitLifecycle) → Meets bad u → Needs e t.source u)
      → ((u : UnitLifecycle) → Agrees t.source u → Needs id t.source u)
      → ((u : UnitLifecycle) → calls env id u ≡ some (call u))
      → t.error_transition_id ≡ some e
      → RowOf (id, t)
  going-Row id t bad e call runs_as suits starts same has =
      calls-Row id t bad call same runs_as (goes t bad e has suits) (λ _. starts)

  abbrev retry_configure : Bool → UnitLifecycle → Run
  retry_configure fires u = then_run (start env false true u) (λ u'. configure env fires u')

module _ (env : Environment) (steady : IsSteady env) where
  unit_rows : All (RowOf env) unit_workflow.transitions
  unfolding unit_workflow insert calls wanted needed preconditions_of
  unit_rows =
      going-Row env "install" _ (runs, rests) "error_install" (install env true)
        (install-Owes env true rests) (λ u h. h) (λ u h. h) (λ u. refl) refl
      ⨾ moving-Row env "error_install" _ (λ u. refl) (λ u h. h) refl
      ⨾ staying-Row env "retry_install" _ (runs, rests) (install env false)
          (install-Owes env false rests) (λ u h. h) (λ u. refl) refl refl
      ⨾ staying-Row env "retry_install_hook" _ (runs, rests) (install env true)
          (install-Owes env true rests) (λ u h. h) (λ u. refl) refl refl
      ⨾ going-Row env "start" _ (runs, rests) "error_start" (start env true true)
          (start-Owes env steady true) (λ u h. h) (λ u h. h) (λ u. refl) refl
      ⨾ moving-Row env "error_start" _ (λ u. refl) (λ u h. h) refl
      ⨾ staying-Row env "retry_start" _ (runs, rests) (start env false true)
          (start_quietly-Owes env steady true rests (runs, rests)) (λ u h. h) (λ u. refl) refl refl
      ⨾ staying-Row env "retry_start_hook" _ (runs, rests) (start env true true)
          (start-Owes env steady true) (λ u h. h) (λ u. refl) refl refl
      ⨾ going-Row env "stop" _ (runs, runs) "error_stop" (stop env true true) (stop-Owes env true)
          (λ u h. h) (λ u h. h) (λ u. refl) refl
      ⨾ moving-Row env "error_stop" _ (λ u. refl) (λ u h. h) refl
      ⨾ staying-Row env "retry_stop" _ (runs, runs) (stop env false true)
          (stop_quietly-Owes env true (runs, runs)) (λ u h. h) (λ u. refl) refl refl
      ⨾ staying-Row env "retry_stop_hook" _ (runs, runs) (stop env true true) (stop-Owes env true)
          (λ u h. h) (λ u. refl) refl refl
      ⨾ going-Row env "upgrade_charm" _ (rests, runs) "upgrade_charm_error"
          (upgrade_charm env true false)
          (λ u h. upgrade_charm-Owes env true false runs u steady (tt, h.1)) (λ u h. h) (λ u h. h)
          (λ u. refl) refl
      ⨾ moving-Row env "upgrade_charm_error" _ (λ u. refl) (λ u h. h) refl
      ⨾ moving-Row env "retry_upgrade_charm_error" _ (λ u. refl) (λ u h. h) refl
      ⨾ going-Row env "retry_upgrade_charm" _ (rests, runs) "retry_upgrade_charm_error"
          (upgrade_charm env false false)
          (λ u h. upgrade_charm-Owes env false false runs u steady (tt, h.1)) (λ u h. h) (λ u h. h)
          (λ u. refl) refl
      ⨾ going-Row env "retry_upgrade_charm_hook" _ (rests, runs) "retry_upgrade_charm_error"
          (upgrade_charm env true false)
          (λ u h. upgrade_charm-Owes env true false runs u steady (tt, h.1)) (λ u h. h) (λ u h. h)
          (λ u. refl) refl
      ⨾ going-Row env "configure" _ (runs, runs) "error_configure" (configure env true)
          (configure-Owes env true) (λ u h. h) (λ u h. h) (λ u. refl) refl
      ⨾ staying-Row env "error_configure" _ (runs, runs) (stop env false true)
          (stop_quietly-Owes env true (runs, runs)) (λ u h. h) (λ u. refl) refl refl
      ⨾ staying-Row env "error_retry_configure" _ (runs, rests) (stop env false true)
          (stop_quietly-Owes env true (runs, rests)) (λ u h. h) (λ u. refl) refl refl
      ⨾ going-Row env "retry_configure" _ (runs, runs) "error_retry_configure"
          (retry_configure env false) (retry_configure-Owes env steady false) (λ u h. h) (λ u h. h)
          (λ u. refl) refl
      ⨾ going-Row env "retry_configure_hook" _ (runs, runs) "error_retry_configure"
          (retry_configure env true) (retry_configure-Owes env steady true) (λ u h. h) (λ u h. h)
          (λ u. refl) refl
      ⨾ tt

  pub unit-Honours : Honours unit_workflow (unit_actions env) Agrees Needs IsForeign
  unit-Honours =
      table-Honours unit_workflow (unit_actions env) Agrees Needs IsForeign unit_is_listed unit_rows
