-- ===== src/Workflow/Defs.antt =====
-- juju/lib/statemachine.py: `Transition` and `Workflow`.
use trusted_juju.Prelude.{
  String, Bool, true, false, Option, none, some, List, [], ◌∷◌, ◌++◌, any, str_eq, if◌then◌else◌,
  Result, ok, raise, ◌>>=◌,
}
use trusted_juju.Prelude.Dict.{Dict, lookup, insert}

pub data Error : Type 0 where
  invalid_state invalid_transition key_error action_error out_of_fuel : Error

-- `None` is the state before the first transition.
abbrev pub State : Type 0
State = Option String

pub record Transition : Type 0 where
  pub transition_id : String
  pub label : String
  pub source : State
  pub destination : State
  pub error_transition_id : Option String
  pub automatic : Bool
  pub alias : Option String

pub record Workflow : Type 0 where
  pub sources : List (State × List String)
  pub transitions : Dict Transition

abbrev pub state_eq : State → State → Bool
state_eq none none = true
state_eq (some a) (some b) = str_eq a b
state_eq _ _ = false

-- `self._sources.get(state)`
unfoldable pub ids_of : State → List (State × List String) → Option (List String)
ids_of s [] = none
ids_of s ((u, ids) ∷ sources) = if state_eq u s then some ids else ids_of s sources

-- `self._sources.setdefault(state, [])`, with the ids appended to the entry.
unfoldable pub append_ids :
    State → List String → List (State × List String) → List (State × List String)
append_ids s new [] = (s, new) ∷ []
append_ids s new ((u, ids) ∷ sources) =
    if state_eq u s then (u, ids ++ new) ∷ sources else (u, ids) ∷ append_ids s new sources

unfoldable pub add_transition : Transition → Workflow → Workflow
unfolding append_ids
add_transition t w = record {
  sources = append_ids t.destination [] (append_ids t.source (t.transition_id ∷ []) w.sources);
  transitions = insert t.transition_id t w.transitions;
}

-- The loop of `initialize`.
unfoldable pub add_transitions : List Transition → Workflow → Workflow
unfolding add_transition
add_transitions [] w = w
add_transitions (t ∷ ts) w = add_transitions ts (add_transition t w)

unfoldable pub initialize : List Transition → Workflow
unfolding add_transitions
initialize ts = add_transitions ts (record { sources = []; transitions = [] })

unfoldable pub get_transition : String → Workflow → Result Error Transition
get_transition id w = elim (lookup id w.transitions) [ none ↦ raise key_error | some t ↦ ok t ]

-- `[self._transitions[t] for t in transitions]`
unfoldable pub collect : List String → Workflow → Result Error (List Transition)
unfolding get_transition
collect [] w = ok []
collect (id ∷ ids) w =
    let rest = collect ids w in get_transition id w >>= λ t. rest >>= λ ts. ok (t ∷ ts)

unfoldable pub get_transitions : State → Workflow → Result Error (List Transition)
unfolding ids_of collect
get_transitions s w = elim (ids_of s w.sources) [
  | none ↦ raise invalid_state
  | some ids ↦ collect ids w
]

unfoldable pub has_state : State → Workflow → Bool
unfolding ids_of
has_state s w = elim (ids_of s w.sources) [ none ↦ false | some ids ↦ true ]

abbrev pub has_id : String → List Transition → Bool
has_id id = any (λ (t : Transition). str_eq t.transition_id id)
