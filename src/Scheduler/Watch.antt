-- ===== src/Scheduler/Watch.antt =====
-- juju/hooks/scheduler.py: the callbacks of the relation watch.
use trusted_juju.Prelude.{
  ℕ, String, Option, none, some, List, [], ◌∷◌, ltb, if◌then◌else◌, Result, ok, raise, ◌>>=◌, ◌>>◌,
  check,
}
use trusted_juju.Prelude.Dict.{Dict, lookup, insert, remove, keys}
use trusted_juju.Prelude.Sets.{contains, add, remove_first, difference, sorted}
use trusted_juju.Scheduler.Queue.{
  ChangeType, joined, departed, modified, Error, type_error, key_error,
}
use trusted_juju.Scheduler.State.{Scheduler, save_state, get_change, put, offset_of}

-- `dict.update` with version 0 for each added unit
unfoldable pub add_versions : List String → Dict ℕ → Dict ℕ
add_versions [] versions = versions
add_versions (u ∷ units) versions = add_versions units (insert u 0 versions)

unfoldable pub remove_versions : List String → Dict ℕ → Dict ℕ
remove_versions [] versions = versions
remove_versions (u ∷ units) versions = remove_versions units (remove u versions)

abbrev pub with_members :
    Option (List String) → (List String → Result Error Scheduler) → Result Error Scheduler
with_members none f = raise type_error
with_members (some members) f = f members

-- `self._run_queue.put(self._get_change(...), int(self._running))`, with the new context.
unfoldable pub put_change : String → ChangeType → List String → Scheduler → Result Error Scheduler
put_change u t members s =
    let s1 : Scheduler = record s { context_members = some members } in
    get_change u t s1.context_members >>= λ change. put change (offset_of s.running) s1

-- `for unit_name in sorted(added)`
unfoldable pub queue_added : List String → Scheduler → Result Error Scheduler
queue_added [] s = ok s
queue_added (u ∷ units) s =
    with_members s.context_members
      (λ members. put_change u joined (add u members) s >>= queue_added units)

-- `for unit_name in sorted(removed)`: removing an absent member raises.
unfoldable pub queue_removed : List String → Scheduler → Result Error Scheduler
queue_removed [] s = ok s
queue_removed (u ∷ units) s = with_members s.context_members (λ members.
    check (contains u members) key_error
    >> (put_change u departed (remove_first u members) s >>= queue_removed units))

-- "Current units (as far as the next hook should know)", set at the first callback.
abbrev pub context_or : List String → Option (List String) → List String
context_or old none = old
context_or old (some members) = members

unfoldable pub cb_change_members : List String → List String → Scheduler → Result Error Scheduler
cb_change_members old_units new_units s = do
  let added = difference new_units (keys s.member_versions)
  let removed = difference (keys s.member_versions) new_units
  s1 ← queue_added (sorted added) (record s {
    context_members = some (context_or old_units s.context_members);
    member_versions = remove_versions removed (add_versions added s.member_versions);
  })
  s2 ← queue_removed (sorted removed) s1
  save_state s2

abbrev pub version_of : String → Dict ℕ → ℕ
version_of name versions = elim (lookup name versions) [ none ↦ 0 | some v ↦ v ]

-- The loop of `cb_change_settings`.
unfoldable pub queue_modifications : List (String × ℕ) → Scheduler → Result Error Scheduler
queue_modifications [] s = ok s
queue_modifications ((name, version) ∷ changes) s =
    let s1 = record s { member_versions = insert name version s.member_versions } in
    let newer = (do
      change ← get_change name modified s1.context_members
      s2 ← put change (offset_of s.running) s1
      queue_modifications changes s2) in
    let older = queue_modifications changes s in
    if ltb (version_of name s.member_versions) version then newer else older

unfoldable pub cb_change_settings : List (String × ℕ) → Scheduler → Result Error Scheduler
cb_change_settings unit_versions s = queue_modifications unit_versions s >>= λ s1. save_state s1
