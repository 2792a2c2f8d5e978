-- ===== src/Agent/RelationStates.antt =====
-- juju/unit/workflow.py, `RelationWorkflowState`: the workflow of a unit relation drives its lifecycle.
use trusted_juju.Prelude.{
  String, Bool, true, false, Option, none, some, [], ◌∷◌, if◌then◌else◌, str_eq, raise,
}
use trusted_juju.Prelude.Dict.{Dict}
use trusted_juju.Workflow.Defs.{action_error, State}
use trusted_juju.Workflow.Machine.{
  Outcome, no_action, returned, crashed, Actions, Machine, Answer, get_state, fire_transition,
}
use trusted_juju.Workflow.Machine
use trusted_juju.Workflow.Unit.{relation_workflow}
use trusted_juju.Agent.RelationLifecycle.{Answers, RelationLifecycle, start, stop}

-- An exception of an action is no `TransitionError`, and one that waits without an end leaves the same.
abbrev pub called : RelationLifecycle × Bool → Outcome × RelationLifecycle
called (l, true) = (returned none, l)
called (l, false) = (crashed, l)

-- The error of the relation-broken hook goes to the state variables.
abbrev pub depart_variables : Option String → Option (Dict String)
depart_variables none = none
depart_variables (some message) = some (("change_type", "depart") ∷ ("error_message", message) ∷ [])

-- After the stop. The broken hook is queued for the executor, and its error is kept.
abbrev pub then_depart : Answers → RelationLifecycle × Bool → Outcome × RelationLifecycle
then_depart answers (l, false) = (crashed, l)
then_depart answers (l, true) = (
  if answers.executor then returned (depart_variables answers.broken) else crashed,
  record l { error_handler = false },
)

unfoldable pub do_depart : Answers → RelationLifecycle → Outcome × RelationLifecycle
do_depart answers l = then_depart answers (stop answers true l)

-- `do_<id>`
unfoldable pub relation_actions : Answers → Actions RelationLifecycle
unfolding do_depart
relation_actions answers l id =
    if str_eq id "start"
    then called (start answers true true l)
    else if str_eq id "stop"
    then called (stop answers true l)
    else if str_eq id "restart"
    then called (start answers true true l)
    else if str_eq id "error"
    then called (stop answers false l)
    else if str_eq id "reset"
    then called (start answers false true l)
    else if str_eq id "depart"
    then do_depart answers l
    else if str_eq id "down_depart"
    then do_depart answers l
    else if str_eq id "error_depart"
    then do_depart answers l
    else (no_action, l)

abbrev pub RelationMachine : Type 0
RelationMachine = Machine RelationLifecycle

-- No transition of a relation leads to another call.
unfoldable pub fire : Answers → String → Dict String → RelationMachine → Answer RelationLifecycle
fire answers = fire_transition relation_workflow (relation_actions answers) 1

unfoldable pub transition_state : Answers → State → RelationMachine → Answer RelationLifecycle
transition_state answers = Machine.transition_state relation_workflow (relation_actions answers) 1

-- Whether the watches and the scheduler run in a state; any other leaves both variables unbound, which
-- raises when they are first read.
unfoldable pub expected : State → Option (Bool × Bool)
expected none = some (false, false)
expected (some s) =
    if str_eq s "up"
    then some (true, true)
    else if str_eq s "down"
    then some (false, false)
    else if str_eq s "departed"
    then some (false, false)
    else if str_eq s "error"
    then some (true, false)
    else none

-- The lifecycle is stopped, and started as far as the state wants.
abbrev pub then_start : Answers → Bool × Bool → RelationLifecycle × Bool → RelationLifecycle × Bool
then_start answers e (l, false) = (l, false)
then_start answers (false, false) (l, true) = (l, true)
then_start answers (watches, scheduler) (l, true) = start answers watches scheduler l

unfoldable pub restore : Answers → Bool × Bool → RelationLifecycle → RelationLifecycle × Bool
restore answers e l = then_start answers e (stop answers true l)

abbrev pub then_synchronize :
    Answers → RelationLifecycle × Bool → RelationMachine → Answer RelationLifecycle
then_synchronize answers (l, true) m =
    Machine.synchronize relation_workflow (relation_actions answers) 1 (record m { world = l })
then_synchronize answers (l, false) m = (record m { world = l }, raise action_error)

unfoldable pub synchronize : Answers → RelationMachine → Answer RelationLifecycle
unfolding restore
synchronize answers m = elim (expected (get_state m)) [
  | none ↦ (record m { world = (stop answers true m.world).0 }, raise action_error)
  | some e ↦ then_synchronize answers (restore answers e m.world) m
]

-- The handler of hook errors.
unfoldable pub on_hook_error :
    Answers → String → String → RelationMachine → Answer RelationLifecycle
unfolding fire
on_hook_error answers change_type message =
    fire answers "error" (("change_type", change_type) ∷ ("error_message", message) ∷ [])
