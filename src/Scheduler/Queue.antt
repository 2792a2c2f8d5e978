-- ===== src/Scheduler/Queue.antt =====
-- juju/hooks/scheduler.py: `HookQueue`, the queue of hook executions and its merges.
use trusted_juju.Prelude.{
  ℕ, zero, suc, String, Bool, true, false, ◌&&◌, Option, none, some, List, [], ◌∷◌, ◌++◌, map,
  str_eq, ◌==◌, if◌then◌else◌, Result, ok, raise, drop, take,
}
use trusted_juju.Prelude.Sets.{contains, remove_first}

-- ADDED, REMOVED and MODIFIED
pub data ChangeType : Type 0 where
  joined departed modified : ChangeType

pub record Change : Type 0 where
  pub unit_name : String
  pub change_type : ChangeType
  pub members : List String

-- `_reduce` falls off its end and the caller unpacks `None`; an `assert` fails; a third
-- `next_change` waits; a `None` set is sorted; a set or dict lacks a key.
pub data Error : Type 0 where
  type_error assertion_error queue_underflow key_error : Error

abbrev pub type_eq : ChangeType → ChangeType → Bool
type_eq joined joined = true
type_eq departed departed = true
type_eq modified modified = true
type_eq _ _ = false

abbrev pub texts_eq : List String → List String → Bool
texts_eq [] [] = true
texts_eq (x ∷ xs) (y ∷ ys) = str_eq x y && texts_eq xs ys
texts_eq _ _ = false

-- `==` of two change dicts
unfoldable pub change_eq : Change → Change → Bool
change_eq a b =
    str_eq a.unit_name b.unit_name
    && (type_eq a.change_type b.change_type && texts_eq a.members b.members)

-- `for p in reversed(pending): if p['unit_name'] == unit_name`
unfoldable pub last_of : String → List Change → Option Change
last_of name [] = none
last_of name (p ∷ pending) = elim (last_of name pending) [
  | none ↦ if str_eq p.unit_name name then some p else none
  | some q ↦ some q
]

-- `pending.index(p)`, where `p` is there: the first that is equal.
unfoldable pub index_of : Change → List Change → ℕ
unfolding change_eq
index_of p [] = 0
index_of p (q ∷ pending) = let rest = index_of p pending in if change_eq q p then 0 else suc rest

unfoldable pub previous : String → List Change → Option (ℕ × Change)
unfolding last_of index_of
previous name pending = elim (last_of name pending) [
  | none ↦ none
  | some p ↦ some (index_of p pending, p)
]

unfoldable pub wipe_member : String → List Change → List Change
wipe_member name = map (λ (p : Change).
    if contains name p.members then record p { members = remove_first name p.members } else p)

-- The clock of a change: its index, or -1 for the new one.
pub data Clock : Type 0 where
  index : ℕ → Clock
  new : Clock

-- `_reduce`. The inner `none` is `(None, None)`; the outer one is the end of the function.
unfoldable pub reduce :
    Clock × ChangeType → Clock × ChangeType → Option (Option (Clock × ChangeType))
reduce (p, departed) (n, joined) = some (some (n, modified))
reduce (p, joined) (n, modified) = some (some (p, joined))
reduce (p, joined) (n, departed) = some none
reduce (p, modified) (n, departed) = some (some (n, departed))
reduce (p, modified) (n, modified) = some (some (p, modified))
reduce (p, departed) (n, modified) = some (some (p, departed))
reduce (p, joined) (n, joined) = none
reduce (p, modified) (n, joined) = none
reduce (p, departed) (n, departed) = none

-- `pending.pop(i)`, for an index in range.
unfoldable pub remove_at : ℕ → List Change → List Change
remove_at i [] = []
remove_at zero (p ∷ pending) = pending
remove_at (suc i) (p ∷ pending) = p ∷ remove_at i pending

abbrev pub is_departed : ChangeType → Bool
is_departed departed = true
is_departed _ = false

-- The branches of `_queue_change` after `_reduce`, with whether `cb_modified` is called. The index
-- counts from the offset, and `pop` takes it in the whole list, as in the source.
unfoldable pub merge :
    Change
    → ℕ
    → ℕ
    → Option (Option (Clock × ChangeType))
    → List Change
    → Result Error (List Change × Bool)
unfolding wipe_member remove_at
merge change offset i none pending = raise type_error
merge change offset i (some (some (index j, t))) pending =
    if i == j
    then ok (pending, false)
    else ok (remove_at i pending ++ record change { change_type = t } ∷ [], true)
merge change offset i (some (some (new, t))) pending =
    ok (remove_at i pending ++ record change { change_type = t } ∷ [], true)
merge change offset i (some none) pending =
    if is_departed change.change_type
    then ok (
      remove_at i (take offset pending ++ wipe_member change.unit_name (drop offset pending)),
      true,
    )
    else raise assertion_error

unfoldable pub queue_change : Change → ℕ → List Change → Result Error (List Change × Bool)
unfolding previous reduce merge
queue_change change offset pending = elim (previous change.unit_name (drop offset pending)) [
  | none ↦ ok (pending ++ change ∷ [], true)
  | some (i, p) ↦
      merge change offset i (reduce (index i, p.change_type) (new, change.change_type)) pending
]
