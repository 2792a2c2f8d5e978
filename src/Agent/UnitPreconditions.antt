-- ===== src/Agent/UnitPreconditions.antt =====
-- juju/unit/workflow.py, `UnitWorkflowState._get_preconditions` and `synchronize`: what they make run
-- suits the state and the transition in flight.
use trusted_juju.Prelude.{
  String, Bool, true, false, not, none, some, ◌≡◌, ◌≢◌, refl, sym, ap, str_eq, Bool-cases, inl, inr,
  subst, ◌∙◌,
}
use trusted_juju.Workflow.Defs.{State, state_eq}
use trusted_juju.Workflow.Check.{state_eq_sound}
use trusted_juju.Workflow.Machine.{get_state, get_inflight}
use trusted_juju.Agent.UnitLifecycle.{Environment, UnitLifecycle, start, stop}
use trusted_juju.Agent.UnitStates.{
  UnitMachine, preconditions_of, get_preconditions, set_running, prepare_world,
}
use trusted_juju.Agent.UnitRuns.{Meets, runs, rests, RunOwes, then-Owes, else-Owes}
use trusted_juju.Agent.StartRuns.{stop_quietly-Owes, start_quietly-Owes, IsSteady}
use trusted_juju.Agent.UnitContracts.{wanted, needed, Agrees, Needs}

-- Where the executor is to run, the transition in flight makes no difference.
preconditions_of-inflight :
    (s inflight : State)
    → (preconditions_of s inflight).0 ≡ true
    → preconditions_of s inflight ≡ preconditions_of s none
unfolding preconditions_of
preconditions_of-inflight s inflight h =
    elim (Bool-cases (state_eq s (some "charm_upgrade_error"))) [
      | inl a ↦ rw a refl
      | inr a ↦ elim (Bool-cases (state_eq s (some "started"))) [
        | inr b ↦ rw (a, b) refl
        | inl b ↦ elim (Bool-cases (state_eq inflight (some "upgrade_charm"))) [
          | inr c ↦ rw (a, b, c) refl
          | inl c ↦ absurd (false_true (rw (a, b, c) at h))
        ]
      ]
    ]
  where
    false_true : false ≡ true → ⊥
    false_true e = cc

-- What the state wants, but in "stop_error", is what is made run.
wanted-preconditions :
    (s : State)
    → s ≢ some "stop_error"
    → wanted s ≡ (some (preconditions_of s none).0, some (preconditions_of s none).1)
unfolding wanted
wanted-preconditions s h = elim (Bool-cases (state_eq s (some "stop_error"))) [
  | inl e ↦ absurd (h (state_eq_sound s (some "stop_error") e))
  | inr e ↦ rw e refl
]

set_running-Owes :
    (env : Environment) (b : Bool) (u : UnitLifecycle)
    → IsSteady env
    → Meets (runs, none) u
    → RunOwes (runs, some b) (runs, none) (set_running env b u)
unfolding set_running
set_running-Owes env true u steady h = elim (Bool-cases u.running) [
  | inl b ↦
      else-Owes (runs, runs) (runs, none) (not u.running) (start env false false u) (u, none)
        (rw b refl) (h.0, b)
  | inr b ↦
      then-Owes (runs, runs) (runs, none) (not u.running) (start env false false u) (u, none)
        (rw b refl) (start_quietly-Owes env steady false none (runs, none) u h)
]
set_running-Owes env false u steady h = elim (Bool-cases u.running) [
  | inl b ↦
      then-Owes (runs, rests) (runs, none) u.running (stop env false true u) (u, none) b
        (stop_quietly-Owes env true (runs, none) u (h.0, b))
  | inr b ↦
      else-Owes (runs, rests) (runs, none) u.running (stop env false true u) (u, none) b (h.0, b)
]

-- The executor and the lifecycle run as asked where the executor is to run, or a call of another
-- component has failed.
pub prepare_world-Owes :
    (env : Environment) (p : Bool × Bool) (u : UnitLifecycle)
    → IsSteady env
    → p.0 ≡ true
    → RunOwes (some p.0, some p.1) (runs, none) (prepare_world env p u)
unfolding prepare_world
prepare_world-Owes env (true, run_lifecycle) u steady e =
    set_running-Owes env run_lifecycle (record u { executor = true }) steady (refl, tt)
prepare_world-Owes env (false, run_lifecycle) u steady e = absurd (cc)

-- What was made run agrees with the state.
pub prepared-Agrees :
    (m : UnitMachine) (u : UnitLifecycle)
    → get_state m ≢ some "stop_error"
    → (get_preconditions m).0 ≡ true
    → Meets (some (get_preconditions m).0, some (get_preconditions m).1) u
    → Agrees (get_state m) u
unfolding get_preconditions
prepared-Agrees m u h executor meets =
    subst (λ w. Meets w u)
      (ap (λ (p : Bool × Bool). (some p.0, some p.1))
          (preconditions_of-inflight (get_state m) (get_inflight m) executor)
        ∙ sym (wanted-preconditions (get_state m) h))
      meets

-- Where both run as the state wants, every transition can be fired but the two that follow the failure
-- of another.
pub agreed-Needs :
    (id : String) (s : State) (u : UnitLifecycle)
    → str_eq id "upgrade_charm_error" ≡ false
    → str_eq id "error_retry_configure" ≡ false
    → Agrees s u
    → Needs id s u
unfolding needed
agreed-Needs id s u upgrade rare h = subst (λ w. Meets w u) (sym (by_default upgrade rare)) h
  where
    by_default :
        str_eq id "upgrade_charm_error" ≡ false
        → str_eq id "error_retry_configure" ≡ false
        → needed id s ≡ wanted s
    by_default a b = rw (a, b) refl
