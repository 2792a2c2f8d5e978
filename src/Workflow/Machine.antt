-- ===== src/Workflow/Machine.antt =====
-- juju/lib/statemachine.py: `WorkflowState`, the stored state and the firing of transitions.
-- The actions (`do_<id>`) are the subclass's, and a parameter here. Firing calls itself for error and
-- automatic transitions, which the model bounds by fuel.
use trusted_juju.Prelude.{
  ℕ, zero, suc, String, Bool, true, false, not, Option, none, some, List, [], ◌∷◌, ◌++◌, str_eq,
  if◌then◌else◌, Result, ok, raise,
}
use trusted_juju.Prelude.Dict.{Dict, insert}
use trusted_juju.Workflow.Defs.{
  Error, invalid_state, invalid_transition, action_error, out_of_fuel, State, Transition, Workflow,
  get_transition, get_transitions, has_state, has_id, state_eq,
}

-- The persistent dict. A file that is missing reads as {"state": None}.
pub record StateDict : Type 0 where
  pub state : State
  pub state_variables : Dict String
  pub transition_id : Option String

-- What an action does: there is none, it returns (perhaps a dict), it raises `TransitionError`, or
-- another exception ends the call (so does the death of the process, with the state as stored).
pub data Outcome : Type 0 where
  no_action : Outcome
  returned : Option (Dict String) → Outcome
  failed : Outcome
  crashed : Outcome

-- The actions work on a world of their own, such as the lifecycle of a unit.
abbrev pub Actions : Type 0 → Type 0
Actions W = W → (transition_id : String) → Outcome × W

pub record Machine (W : Type 0) : Type 0 where
  pub stored : Option StateDict
  pub world : W
  pub observed : List (State × Dict String)

abbrev pub Answer : Type 0 → Type 0
Answer W = Machine W × Result Error Bool

unfoldable pub get_state : {W : Type 0} → Machine W → State
get_state m = elim (m.stored) [ none ↦ none | some d ↦ d.state ]

unfoldable pub get_inflight : {W : Type 0} → Machine W → Option String
get_inflight m = elim (m.stored) [ none ↦ none | some d ↦ d.transition_id ]

-- `_store(dict(state=…, state_variables=…))`: no "transition_id" stays. The observer is called.
unfoldable pub set_state : {W : Type 0} → State → Dict String → Machine W → Machine W
set_state s variables m = record m {
  stored = some (record { state = s; state_variables = variables; transition_id = none });
  observed = m.observed ++ (s, variables) ∷ [];
}

abbrev pub dict_or : Option StateDict → StateDict
dict_or none = record { state = none; state_variables = []; transition_id = none }
dict_or (some d) = d

unfoldable pub set_inflight : {W : Type 0} → Option String → Machine W → Machine W
set_inflight id m = record m { stored = some (record (dict_or m.stored) { transition_id = id }) }

-- `dict.update`
unfoldable pub update : Dict String → Dict String → Dict String
update variables [] = variables
update variables ((k, v) ∷ more) = update (insert k v variables) more

abbrev pub Fire : Type 0 → Type 0
Fire W = String → Dict String → Machine W → Answer W

unfoldable pub get_available_transitions :
    {W : Type 0} → Workflow → Machine W → Result Error (List Transition)
get_available_transitions w m = get_transitions (get_state m) w

unfoldable pub first_automatic : List Transition → Option Transition
first_automatic [] = none
first_automatic (t ∷ ts) = let rest = first_automatic ts in if t.automatic then some t else rest

-- The end of a call that was made for its effect: an exception goes through.
abbrev pub then_return : {W : Type 0} → Bool → Answer W → Answer W
then_return b (m, ok _) = (m, ok b)
then_return b (m, raise e) = (m, raise e)

abbrev pub fire_first : {W : Type 0} → Fire W → Option Transition → Machine W → Answer W
fire_first fire none m = (m, ok true)
fire_first fire (some t) m = fire t.transition_id [] m

abbrev pub fire_automatic_from :
    {W : Type 0} → Fire W → Result Error (List Transition) → Machine W → Answer W
fire_automatic_from fire (raise e) m = (m, raise e)
fire_automatic_from fire (ok available) m = fire_first fire (first_automatic available) m

unfoldable pub fire_automatic_transitions : {W : Type 0} → Workflow → Fire W → Machine W → Answer W
fire_automatic_transitions w fire m = fire_automatic_from fire (get_available_transitions w m) m

-- After the action: "Set the state with state variables (and implicitly clear inflight)".
unfoldable pub complete :
    {W : Type 0} → Workflow → Fire W → Transition → Dict String → Machine W → Answer W
complete w fire t variables m =
    then_return true (fire_automatic_transitions w fire (set_state t.destination variables m))

-- After a `TransitionError`.
abbrev pub recover_by : {W : Type 0} → Fire W → Option String → Machine W → Answer W
recover_by fire none m = (set_inflight none m, ok false)
recover_by fire (some error_id) m = then_return false (fire error_id [] m)

abbrev pub after_action :
    {W : Type 0} → Workflow → Fire W → Transition → Dict String → Outcome → Machine W → Answer W
after_action w fire t variables no_action m = complete w fire t variables m
after_action w fire t variables (returned none) m = complete w fire t variables m
after_action w fire t variables (returned (some more)) m =
    complete w fire t (update variables more) m
after_action w fire t variables failed m = recover_by fire t.error_transition_id m
after_action w fire t variables crashed m = (m, raise action_error)

abbrev pub with_world : {W : Type 0} → W → Machine W → Machine W
with_world x m = record m { world = x }

abbrev pub fire_known :
    {W : Type 0}
    → Workflow
    → Actions W
    → Fire W
    → String
    → Dict String
    → Result Error Transition
    → Machine W
    → Answer W
fire_known w act fire id variables (raise e) m = (m, raise e)
fire_known w act fire id variables (ok t) m =
    after_action w fire t variables (act m.world id).0 (with_world (act m.world id).1 m)

abbrev pub fire_among :
    {W : Type 0}
    → Workflow
    → Actions W
    → Fire W
    → String
    → Dict String
    → Result Error (List Transition)
    → Machine W
    → Answer W
fire_among w act fire id variables (raise e) m = (m, raise e)
fire_among w act fire id variables (ok available) m =
    if has_id id available
    then fire_known w act fire id variables (get_transition id w) (set_inflight (some id) m)
    else (m, raise invalid_transition)

unfoldable pub fire_transition : {W : Type 0} → Workflow → Actions W → ℕ → Fire W
fire_transition w act zero id variables m = (m, raise out_of_fuel)
fire_transition w act (suc fuel) id variables m =
    fire_among w act (fire_transition w act fuel) id variables (get_available_transitions w m) m

-- `transition_alias == t.alias`
abbrev pub alias_is : String → Option String → Bool
alias_is alias none = false
alias_is alias (some a) = str_eq alias a

unfoldable pub with_alias : String → List Transition → List Transition
with_alias alias [] = []
with_alias alias (t ∷ ts) =
    let rest = with_alias alias ts in if alias_is alias t.alias then t ∷ rest else rest

abbrev pub fire_only : {W : Type 0} → Fire W → List Transition → Machine W → Answer W
fire_only fire [] m = (m, raise invalid_transition)
fire_only fire (t ∷ []) m = fire t.transition_id [] m
fire_only fire (t ∷ t' ∷ ts) m = (m, raise invalid_transition)

abbrev pub fire_alias_among :
    {W : Type 0} → Fire W → String → Result Error (List Transition) → Machine W → Answer W
fire_alias_among fire alias (raise e) m = (m, raise e)
fire_alias_among fire alias (ok available) m = fire_only fire (with_alias alias available) m

unfoldable pub fire_transition_alias :
    {W : Type 0} → Workflow → Actions W → ℕ → String → Machine W → Answer W
fire_transition_alias w act fuel alias m =
    fire_alias_among (fire_transition w act fuel) alias (get_available_transitions w m) m

unfoldable pub first_to : State → List Transition → Option Transition
first_to s [] = none
first_to s (t ∷ ts) = let rest = first_to s ts in if state_eq t.destination s then some t else rest

abbrev pub fire_to : {W : Type 0} → Fire W → Option Transition → Machine W → Answer W
fire_to fire none m = (m, ok false)
fire_to fire (some t) m = fire t.transition_id [] m

abbrev pub fire_to_among :
    {W : Type 0} → Fire W → State → Result Error (List Transition) → Machine W → Answer W
fire_to_among fire s (raise e) m = (m, raise e)
fire_to_among fire s (ok available) m = fire_to fire (first_to s available) m

unfoldable pub transition_state :
    {W : Type 0} → Workflow → Actions W → ℕ → State → Machine W → Answer W
transition_state w act fuel s m =
    if not (has_state s w)
    then (m, raise invalid_state)
    else fire_to_among (fire_transition w act fuel) s (get_available_transitions w m) m

-- "First of all, complete any abandoned transition."
unfoldable pub synchronize : {W : Type 0} → Workflow → Actions W → ℕ → Machine W → Answer W
synchronize w act fuel m = elim (get_inflight m) [
  | none ↦ fire_automatic_transitions w (fire_transition w act fuel) m
  | some id ↦ fire_transition w act fuel id [] m
]
