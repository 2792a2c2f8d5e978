-- ===== src/Workflow/Unit.antt =====
-- juju/unit/workflow.py: the transitions of a service unit and of a unit relation.
use trusted_juju.Prelude.{
  String, Bool, true, false, not, ◌&&◌, none, some, List, [], ◌∷◌, str_eq, if◌then◌else◌,
}
use trusted_juju.Workflow.Defs.{State, Transition, Workflow, initialize}

-- `Transition(id, label, source, destination)`, `error_transition_id=…`, `alias=…`
abbrev plain : String → String → State → State → Transition
plain id label source destination = record {
  transition_id = id;
  label = label;
  source = source;
  destination = destination;
  error_transition_id = none;
  automatic = false;
  alias = none;
}

abbrev on_error : String → Transition → Transition
on_error e t = record t { error_transition_id = some e }

abbrev alias_of : String → Transition → Transition
alias_of a t = record t { alias = some a }

abbrev auto : Transition → Transition
auto t = record t { automatic = true }

abbrev pub unit_transitions : List Transition
unit_transitions =
    auto (on_error "error_install" (plain "install" "Install" none (some "installed")))
    ∷ plain "error_install" "Install error" none (some "install_error")
    ∷ alias_of "retry"
        (plain "retry_install" "Retry install" (some "install_error") (some "installed"))
    ∷ alias_of "retry_hook" (
        plain "retry_install_hook" "Retry install with hook" (some "install_error")
          (some "installed"))
    ∷ auto (on_error "error_start" (plain "start" "Start" (some "installed") (some "started")))
    ∷ plain "error_start" "Start error" (some "installed") (some "start_error")
    ∷ alias_of "retry" (plain "retry_start" "Retry start" (some "start_error") (some "started"))
    ∷ alias_of "retry_hook"
        (plain "retry_start_hook" "Retry start with hook" (some "start_error") (some "started"))
    ∷ on_error "error_stop" (plain "stop" "Stop" (some "started") (some "stopped"))
    ∷ plain "error_stop" "Stop error" (some "started") (some "stop_error")
    ∷ alias_of "retry" (plain "retry_stop" "Retry stop" (some "stop_error") (some "stopped"))
    ∷ alias_of "retry_hook"
        (plain "retry_stop_hook" "Retry stop with hook" (some "stop_error") (some "stopped"))
    ∷ on_error "upgrade_charm_error"
        (plain "upgrade_charm" "Upgrade" (some "started") (some "started"))
    ∷ plain "upgrade_charm_error" "Upgrade error" (some "started") (some "charm_upgrade_error")
    ∷ plain "retry_upgrade_charm_error" "Upgrade error" (some "charm_upgrade_error")
        (some "charm_upgrade_error")
    ∷ alias_of "retry" (
        on_error "retry_upgrade_charm_error" (
          plain "retry_upgrade_charm" "Retry upgrade" (some "charm_upgrade_error")
            (some "started")))
    ∷ alias_of "retry_hook" (
        on_error "retry_upgrade_charm_error" (
          plain "retry_upgrade_charm_hook" "Retry upgrade with hook" (some "charm_upgrade_error")
            (some "started")))
    ∷ on_error "error_configure" (plain "configure" "Configure" (some "started") (some "started"))
    ∷ plain "error_configure" "On configure error" (some "started") (some "configure_error")
    ∷ plain "error_retry_configure" "On retry configure error" (some "configure_error")
        (some "configure_error")
    ∷ alias_of "retry" (
        on_error "error_retry_configure"
          (plain "retry_configure" "Retry configure" (some "configure_error") (some "started")))
    ∷ alias_of "retry_hook" (
        on_error "error_retry_configure" (
          plain "retry_configure_hook" "Retry configure with hooks" (some "configure_error")
            (some "started")))
    ∷ []

-- `UnitWorkflow`
unfoldable pub unit_workflow : Workflow
unfolding initialize
unit_workflow = initialize unit_transitions

abbrev pub relation_transitions : List Transition
relation_transitions =
    auto (plain "start" "Start" none (some "up"))
    ∷ plain "stop" "Stop" (some "up") (some "down")
    ∷ alias_of "retry" (plain "restart" "Restart" (some "down") (some "up"))
    ∷ plain "error" "Relation hook error" (some "up") (some "error")
    ∷ plain "reset" "Recover from hook error" (some "error") (some "up")
    ∷ plain "depart" "Relation broken" (some "up") (some "departed")
    ∷ plain "down_depart" "Relation broken" (some "down") (some "departed")
    ∷ plain "error_depart" "Relation broken" (some "error") (some "departed")
    ∷ []

-- `RelationWorkflow`
unfoldable pub relation_workflow : Workflow
unfolding initialize
relation_workflow = initialize relation_transitions

-- The test and the state that `is_unit_running` and `is_relation_running` make of the stored state.
abbrev is_running : String → State → Bool × State
is_running state none = (false, none)
is_running state (some s) =
    (not (str_eq s "") && str_eq s state, if str_eq s "" then none else some s)

unfoldable pub is_unit_running : State → Bool × State
is_unit_running = is_running "started"

unfoldable pub is_relation_running : State → Bool × State
is_relation_running = is_running "up"
