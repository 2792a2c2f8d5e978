-- ===== src/Workflow/Tests.antt =====
-- Runs of the workflows on small inputs, and the theorems about them at inputs that meet their
-- hypotheses.
use trusted_juju.Prelude.{
  ℕ, ◌+◌, ◌≡◌, ◌↔◌, refl, true, false, none, some, List, [], ◌∷◌, ok, raise, arith, str_eq,
  if◌then◌else◌,
}
use trusted_juju.Prelude.Dict.{lookup, insert}
use trusted_juju.Workflow.Defs.{
  action_error, invalid_transition, Transition, get_transition, get_transitions, has_state,
}
use trusted_juju.Workflow.Machine.{
  no_action, returned, failed, crashed, Actions, Machine, get_state, get_inflight, set_state,
  set_inflight, update, get_available_transitions, first_automatic, complete, fire_transition,
  fire_transition_alias, with_alias, synchronize, transition_state, fire_automatic_transitions,
  first_to,
}
use trusted_juju.Workflow.Unit.{unit_workflow, relation_workflow}
use trusted_juju.Workflow.Paths.{Moves, fire_transition-Moves}
use trusted_juju.Workflow.Total.{Ends, fire_transition-Ends}
use trusted_juju.Workflow.UnitLaws.{
  unit_rank, unit_workflow-Ends, unit_fire_transition_alias_iff, unit-IsSound,
}
use trusted_juju.Workflow.Interrupted.{synchronize_after_crash}

program : Unit {0}
unfolding get_transition get_transitions has_state get_state get_inflight set_state set_inflight
    update get_available_transitions first_automatic complete fire_transition fire_transition_alias
    with_alias synchronize transition_state fire_automatic_transitions first_to unit_workflow
    relation_workflow lookup insert
program = tt

abbrev fresh : Machine ℕ
fresh = record { stored = none; world = 0; observed = [] }

-- The start hook fails, and all else succeeds.
abbrev no_start : Actions ℕ
no_start call id = (
  if str_eq id "start"
      then failed
      else if str_eq id "error_start"
      then no_action
      else returned none,
  call + 1,
)

abbrev dying : Actions ℕ
dying call id = (crashed, call + 1)

-- A new unit is installed and started by itself; where the start hook fails, it is in
-- "start_error", and the call has still succeeded.
installs : get_state (synchronize unit_workflow no_start 5 fresh).0 ≡ some "start_error"
unfolding program
installs = refl

abbrev first_transitions : List Transition
first_transitions =
    record {
      transition_id = "install";
      label = "Install";
      source = none;
      destination = some "installed";
      error_transition_id = some "error_install";
      automatic = true;
      alias = none;
    }
    ∷ record {
      transition_id = "error_install";
      label = "Install error";
      source = none;
      destination = some "install_error";
      error_transition_id = none;
      automatic = false;
      alias = none;
    }
    ∷ []

available : get_available_transitions unit_workflow fresh ≡ ok first_transitions
unfolding program
available = refl

fire_transition-Moves_example :
    Moves unit_workflow
      (get_state fresh)
      (fire_transition unit_workflow no_start 4 "install" [] fresh)
fire_transition-Moves_example = fire_transition-Moves unit_workflow no_start 4 "install" [] fresh

fire_transition-Ends_example : Ends (fire_transition unit_workflow no_start 4 "install" [] fresh)
unfolding program
fire_transition-Ends_example =
    fire_transition-Ends unit_workflow unit_rank no_start 4 "install" [] fresh first_transitions
      unit-IsSound available refl (omega arith)

unit_workflow-Ends_example : Ends (fire_transition unit_workflow no_start 4 "install" [] fresh)
unit_workflow-Ends_example =
    unit_workflow-Ends no_start 0 "install" [] fresh first_transitions available refl

abbrev first_relation_transitions : List Transition
first_relation_transitions =
    record {
      transition_id = "start";
      label = "Start";
      source = none;
      destination = some "up";
      error_transition_id = none;
      automatic = true;
      alias = none;
    }
    ∷ []

unit_fire_transition_alias_iff_example :
    ((fire_transition_alias unit_workflow no_start 4 "retry" fresh).1 ≡ raise invalid_transition)
    ↔ (with_alias "retry" first_transitions ≡ [])
unit_fire_transition_alias_iff_example =
    unit_fire_transition_alias_iff no_start 0 "retry" fresh first_transitions available

abbrev install : Transition
install = record {
  transition_id = "install";
  label = "Install";
  source = none;
  destination = some "installed";
  error_transition_id = some "error_install";
  automatic = true;
  alias = none;
}

synchronize_after_crash_example :
    (m' : Machine ℕ) × (fire_transition unit_workflow dying 4 "install" [] fresh
      ≡ (m', raise action_error))
    × (get_state m' ≡ get_state fresh)
    × (get_inflight m' ≡ some "install")
    × ((act' : Actions ℕ) (fuel' : ℕ)
        → synchronize unit_workflow act' fuel' m'
          ≡ fire_transition unit_workflow act' fuel' "install" [] m')
unfolding program
synchronize_after_crash_example =
    synchronize_after_crash unit_workflow dying 3 "install" [] fresh first_transitions install
      available refl refl refl
