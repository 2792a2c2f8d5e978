-- ===== src/Agent/Callbacks.antt =====
-- juju/agents/unit.py: the callbacks of a unit's agent, between which the executor and the lifecycle run
-- as the stored state wants.
use trusted_juju.Prelude.{
  String, Bool, true, false, Option, none, some, List, [], ◌≡◌, refl, sym, ap, subst, ◌⊎◌, inl, inr,
  ok, raise, str_eq, Bool-cases,
}
use trusted_juju.Workflow.Defs.{State, Transition, state_eq, has_id}
use trusted_juju.Workflow.Machine.{Answer, get_state, get_available_transitions}
use trusted_juju.Workflow.Unit.{unit_workflow}
use trusted_juju.Workflow.Check.{state_eq_sound}
use trusted_juju.Agent.UnitLifecycle.{Environment, UnitLifecycle}
use trusted_juju.Agent.UnitStates.{
  UnitMachine, fire, cb_watch_config_changed, upgrade_between, upgrade_charms,
  cb_watch_upgrade_flag,
}
use trusted_juju.Agent.UnitContracts.{Agrees, IsForeign}
use trusted_juju.Agent.StartRuns.{IsSteady}
use trusted_juju.Agent.UnitPreconditions.{agreed-Needs}
use trusted_juju.Agent.UnitStateLaws.{
  IsSafe, unit_fire-Agrees, started_transitions, available_started, configure_among, upgrade_among,
}

-- Both run as the state wants (`Agrees`), or an exception of a hook or a service was the last to end a call.
abbrev pub IsKept : UnitMachine → Type 0
IsKept m = Agrees (get_state m) m.world ⊎ IsForeign m.world

safe-Kept : (r : Answer UnitLifecycle) → IsSafe r → IsKept r.0
safe-Kept (m, ok b) h = inl h
safe-Kept (m, raise e) h = inr (h.1)

agreed_fire :
    (env : Environment) (id : String) (m : UnitMachine) (ts : List Transition)
    → IsSteady env
    → get_available_transitions unit_workflow m ≡ ok ts
    → has_id id ts ≡ true
    → str_eq id "upgrade_charm_error" ≡ false
    → str_eq id "error_retry_configure" ≡ false
    → Agrees (get_state m) m.world
    → IsKept (fire env id [] m).0
unfolding get_available_transitions
agreed_fire env id m ts steady a b upgrade rare h = safe-Kept (fire env id [] m) (
    unit_fire-Agrees env id [] m ts steady a b
      (agreed-Needs id (get_state m) m.world upgrade rare h))

-- A change of the configuration leaves the executor and the lifecycle running as the state that it ends
-- in wants, where they do before, or is ended by an exception of a hook or a service.
pub cb_watch_config_changed-Kept :
    (env : Environment) (m : UnitMachine)
    → IsSteady env
    → Agrees (get_state m) m.world
    → IsKept (cb_watch_config_changed env m).0
unfolding cb_watch_config_changed
cb_watch_config_changed-Kept env m steady h =
    elim (Bool-cases (state_eq (get_state m) (some "started"))) [
      | inl e ↦ rw e (
          agreed_fire env "configure" m started_transitions steady
            (available_started m (state_eq_sound (get_state m) (some "started") e)) configure_among
            refl refl h)
      | inr e ↦ rw e (inl h)
    ]

upgrade_between-Kept :
    (env : Environment) (force : Bool) (m : UnitMachine) (new_id old_id : String)
    → IsSteady env
    → (force ≡ true → get_state m ≡ some "started")
    → Agrees (get_state m) m.world
    → IsKept (upgrade_between env force new_id old_id m).0
unfolding upgrade_between
upgrade_between-Kept env force m new_id old_id steady starts h =
    elim (Bool-cases (str_eq new_id old_id)) [
      | inl e ↦ rw e (inl h)
      | inr e ↦ elim (Bool-cases (state_eq (get_state m) (some "started"))) [
        | inl f ↦
            rw (e, f)
              (agreed_fire env "upgrade_charm" m started_transitions steady
                (available_started m (state_eq_sound (get_state m) (some "started") f))
                upgrade_among refl refl h)
        | inr f ↦ elim (Bool-cases force) [
          | inl g ↦ absurd (apart (get_state m) f (starts g))
          | inr g ↦ rw (e, f, g) (inl h)
        ]
      ]
    ]
  where
    apart : (s : State) → state_eq s (some "started") ≡ false → s ≡ some "started" → ⊥
    apart s e f = absurd (true_false (sym (subst (λ t. state_eq t (some "started") ≡ false) f e)))
      where
        true_false : false ≡ true → ⊥
        true_false p = cc

upgrade_charms-Kept :
    (env : Environment) (force : Bool) (new_id old_id : Option String) (m : UnitMachine)
    → IsSteady env
    → (force ≡ true → get_state m ≡ some "started")
    → Agrees (get_state m) m.world
    → IsKept (upgrade_charms env force new_id old_id m).0
unfolding upgrade_charms
upgrade_charms-Kept env force none old_id m steady starts h = inl h
upgrade_charms-Kept env force (some new_id) none m steady starts h = inl h
upgrade_charms-Kept env force (some new_id) (some old_id) m steady starts h =
    upgrade_between-Kept env force m new_id old_id steady starts h

-- Where the preparation of an upgrade succeeds and the first invocations of the watches raise neither
-- `FileNotFound` nor `CharmError`, a request to upgrade leaves the executor and the lifecycle running as
-- `_get_preconditions` says of the state that it ends in (in "stop_error": both running), where they do
-- before, or is ended by an exception of a hook or a service, unless it forces the upgrade in a state
-- other than "started".
pub cb_watch_upgrade_flag-Kept :
    (env : Environment) (service_id unit_id : Option String) (upgrade_flag : Option Bool)
    (m : UnitMachine)
    → IsSteady env
    → (upgrade_flag ≡ some true → get_state m ≡ some "started")
    → Agrees (get_state m) m.world
    → IsKept (cb_watch_upgrade_flag env service_id unit_id upgrade_flag m).0
unfolding cb_watch_upgrade_flag
cb_watch_upgrade_flag-Kept env service_id unit_id none m steady starts h = inl h
cb_watch_upgrade_flag-Kept env service_id unit_id (some force) m steady starts h =
    upgrade_charms-Kept env force service_id unit_id m steady (λ e. starts (ap some e)) h
