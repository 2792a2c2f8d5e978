-- ===== src/Scheduler/Presence.antt =====
-- What the queue of juju/hooks/scheduler.py promises: the hooks that run for a unit tell a charm
-- when the unit comes, changes and goes, in an order that makes sense.
use trusted_juju.Prelude.{
  ◌≤◌, String, Bool, true, false, Option, none, some, List, [], ◌∷◌, str_eq, if◌then◌else◌, length,
}
use trusted_juju.Scheduler.Queue.{ChangeType, joined, departed, modified, Change, Clock}

-- Whether the charm knows the unit, after a hook of this type: `none` for a hook that makes no
-- sense, as a second join.
unfoldable pub act : ChangeType → Bool → Option Bool
act joined false = some true
act modified true = some true
act departed true = some false
act _ _ = none

-- The same for the hooks of a sequence, in turn.
unfoldable pub presence : List ChangeType → Bool → Option Bool
presence [] b = some b
presence (t ∷ types) b = elim (act t b) [ none ↦ none | some c ↦ presence types c ]

-- The hooks that the queue holds for a unit.
unfoldable pub types_of : String → List Change → List ChangeType
types_of name [] = []
types_of name (p ∷ pending) =
    let rest = types_of name pending in
    if str_eq p.unit_name name then p.change_type ∷ rest else rest

-- The queue has one change for each unit at most.
abbrev pub IsMerged : List Change → Type 0
IsMerged pending = (name : String) → length (types_of name pending) ≤ 1

-- What a result of `_reduce` stands for.
unfoldable pub outcome : Option (Option (Clock × ChangeType)) → Bool → Option Bool
unfolding act
outcome none b = none
outcome (some none) b = some b
outcome (some (some (_, t))) b = act t b
