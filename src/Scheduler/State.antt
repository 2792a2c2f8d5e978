-- ===== src/Scheduler/State.antt =====
-- juju/hooks/scheduler.py: `HookScheduler` and the queue that it drives.
-- The `run` generator is cut at its two `yield`s: it waits for a change, or for the hook that it
-- started. A hook is a process, so it ends in a later event and never inside the call that starts it.
-- An exception that escapes from a callback is the result; the state that it leaves is not modelled.
use trusted_juju.Prelude.{
  ℕ, String, Bool, true, false, not, Option, none, some, List, [], ◌∷◌, if◌then◌else◌, Result, ok,
  raise, ◌>>=◌,
}
use trusted_juju.Prelude.Dict.{Dict}
use trusted_juju.Prelude.Sets.{sorted}
use trusted_juju.Scheduler.Queue.{
  ChangeType, joined, departed, modified, Change, Error, type_error, assertion_error,
  queue_underflow, queue_change,
}

-- The state file, as `_save_state` writes it.
pub record Saved : Type 0 where
  pub context_members : List String
  pub member_versions : Dict ℕ
  pub change_queue : List Change

pub record Scheduler : Type 0 where
  pub running : Bool
  pub context_members : Option (List String)
  pub member_versions : Dict ℕ
  pub pending : List Change
  -- `run` waits in `next_change`: the queue has a waiter.
  pub waiting : Bool
  -- The change whose hook `run` waits for.
  pub executing : Option Change
  pub disk : Option Saved

-- `_create_state`
unfoldable pub create_state : Option Saved → Scheduler
create_state disk = record {
  running = false;
  context_members = none;
  member_versions = [];
  pending = [];
  waiting = false;
  executing = none;
  disk = disk;
}

-- `__init__` over what the state file holds, with `_load_state`.
unfoldable pub load_state : Option Saved → Scheduler
load_state none = create_state none
load_state (some saved) = record {
  running = false;
  context_members = some saved.context_members;
  member_versions = saved.member_versions;
  pending = saved.change_queue;
  waiting = false;
  executing = none;
  disk = some saved;
}

-- `_save_state`: `sorted(None)` raises.
unfoldable pub save_state : Scheduler → Result Error Scheduler
save_state s = elim (s.context_members) [
  | none ↦ raise type_error
  | some members ↦ ok (record s {
    disk = some (record {
      context_members = sorted members;
      member_versions = s.member_versions;
      change_queue = s.pending;
    });
  })
]

unfoldable pub get_change : String → ChangeType → Option (List String) → Result Error Change
get_change name t none = raise type_error
get_change name t (some members) =
    ok (record { unit_name = name; change_type = t; members = sorted members })

abbrev pub save_if : Bool → Scheduler → Result Error Scheduler
save_if true s = save_state s
save_if false s = ok s

-- `_queue_change`, with `cb_modified`
unfoldable pub queue : Change → ℕ → Scheduler → Result Error Scheduler
queue change offset s = queue_change change offset s.pending >>= λ (pending, notified).
    save_if notified (record s { pending = pending })

-- The waiter is called with the head of the queue, and starts its hook.
abbrev pub wake : Scheduler → Scheduler
wake s = elim (s.pending) [
  | [] ↦ s
  | p ∷ pending ↦ record s { waiting = false; executing = some p }
]

-- `put` of a change: with a waiter the queue is idle, and its head may be merged with.
abbrev pub put_to : Bool → Change → ℕ → Scheduler → Result Error Scheduler
put_to true change offset s = queue change 0 s >>= λ s'. ok (wake s')
put_to false change offset s = queue change offset s

unfoldable pub put : Change → ℕ → Scheduler → Result Error Scheduler
put change offset s = put_to s.waiting change offset s

-- `finished_change`
unfoldable pub finished_change : Scheduler → Result Error Scheduler
finished_change s = elim (s.pending) [
  | [] ↦ ok s
  | p ∷ pending ↦ save_state (record s { pending = pending })
]

-- The head of the loop of `run`: `while self._running: change = yield next_change()`.
unfoldable pub next_change : Scheduler → Result Error Scheduler
next_change s = if not s.running then ok s else elim (s.pending) [
  | [] ↦ if s.waiting then raise queue_underflow else ok (record s { waiting = true })
  | p ∷ pending ↦ ok (record s { executing = some p })
]

-- `run`, up to its first wait.
unfoldable pub start : Scheduler → Result Error Scheduler
start s = if s.running then raise assertion_error else next_change (record s { running = true })

abbrev pub offset_of : Bool → ℕ
offset_of true = 1
offset_of false = 0

-- "Queue up modified immediately after change."
unfoldable pub queue_modified : Change → Scheduler → Result Error Scheduler
queue_modified change s = elim (change.change_type) [
  | joined ↦ get_change change.unit_name modified s.context_members >>= λ after. put after 1 s
  | departed ↦ ok s
  | modified ↦ ok s
]

-- The body of the loop of `run` after the hook of `change`, and on to the next wait.
unfoldable pub after_hook : Change → Bool → Scheduler → Result Error Scheduler
after_hook change success s = queue_modified change s >>= λ s1. elim success [
  | true ↦ finished_change s1 >>= λ s2. next_change (record s2 { executing = none })
  | false ↦ ok (record s1 { running = false; executing = none })
]

unfoldable pub hook_done : Bool → Scheduler → Result Error Scheduler
hook_done success s = elim (s.executing) [ none ↦ ok s | some change ↦ after_hook change success s ]

-- `stop`: the `None` that it queues ends a waiting `run`, and a busy one sees the flag.
unfoldable pub stop : Scheduler → Scheduler
stop s = if not s.running then s else record s { running = false; waiting = false }

unfoldable pub pop : Scheduler → Result Error Scheduler
pop s = if s.running then raise assertion_error else finished_change s
