-- ===== src/Scheduler/Recovery.antt =====
-- juju/hooks/scheduler.py: the members that the next hook knows, and the state file that a new
-- scheduler starts from.
use trusted_juju.Prelude.{
  ℕ, String, not, ◌&&◌, ◌||◌, some, List, [], ◌∷◌, ok, ◌>>=◌, ◌≡◌, refl, sym, ◌∙◌, ap, arith,
  >>=-eq-ok,
}
use trusted_juju.Prelude.Dict.{keys, has_key}
use trusted_juju.Prelude.Sets.{
  has_key-keys, contains, add, remove_first, difference, sorted, contains-add,
  contains-remove_first, contains-sorted, contains-difference, IsSetLike, add-IsSetLike,
  remove_first-IsSetLike,
}
use trusted_juju.Scheduler.State.{Scheduler, save_state, load_state}
use trusted_juju.Scheduler.Watch.{
  queue_added, queue_removed, add_versions, remove_versions, context_or, cb_change_members,
  queue_modifications, cb_change_settings,
}
use trusted_juju.Scheduler.Members.{added_to, removed_from, cb_change_members-members}

pub added_to-members :
    (x : String) (units members : List String)
    → IsSetLike members
    → IsSetLike (added_to units members)
      × (contains x (added_to units members) ≡ (contains x units || contains x members))
unfolding contains
added_to-members x [] members d = (d, refl)
added_to-members x (u ∷ units) members d =
    let (d', e) = added_to-members x units (add u members) (add-IsSetLike u members d) in
    (d', ground (arith, contains-add x u members))

removed_from-members :
    (x : String) (units members : List String)
    → IsSetLike members
    → IsSetLike (removed_from units members)
      × (contains x (removed_from units members) ≡ (not (contains x units) && contains x members))
unfolding contains
removed_from-members x [] members d = (d, refl)
removed_from-members x (u ∷ units) members d =
    let (d', e) =
      removed_from-members x units (remove_first u members) (remove_first-IsSetLike u members d) in
    (d', ground (arith, contains-remove_first x u members d))

settle :
    (known new members units out : List String) (x : String)
    → contains x members ≡ contains x known
    → contains x units ≡ (contains x (sorted (difference new known)) || contains x members)
    → contains x out ≡ (not (contains x (sorted (difference known new))) && contains x units)
    → contains x out ≡ contains x new
settle known new members units out x same grown shrunk = ground (
  arith,
  contains-sorted x (difference new known),
  contains-sorted x (difference known new),
  contains-difference x new known,
  contains-difference x known new,
)

-- Where the members that hooks are told of (before the first callback, the old membership) are the
-- units with a recorded version, a membership callback that returns leaves them at exactly the new
-- membership, each unit once.
pub cb_change_members-context :
    (old new members : List String) (s s' : Scheduler)
    → context_or old s.context_members ≡ members
    → IsSetLike members
    → ((x : String) → contains x members ≡ has_key x s.member_versions)
    → cb_change_members old new s ≡ ok s'
    → (members' : List String) × (s'.context_members ≡ some members')
      × IsSetLike members'
      × ((x : String) → contains x members' ≡ contains x new)
cb_change_members-context old new members s s' hm d same h =
    let known = keys s.member_versions in
    let grown = added_to (sorted (difference new known)) members in
    let out = removed_from (sorted (difference known new)) grown in
    let after =
      ap
        (λ (ms : List String). some (
          removed_from (sorted (difference known new))
            (added_to (sorted (difference new known)) ms)))
        hm in
    (
      out,
      (cb_change_members-members old new s s' h).0 ∙ after,
      (removed_from-members "" (sorted (difference known new)) grown
          (added_to-members "" (sorted (difference new known)) members d).0).0,
      λ x.
          let (d1, e1) = added_to-members x (sorted (difference new known)) members d in
          let (d2, e2) = removed_from-members x (sorted (difference known new)) grown d1 in
          settle known new members grown out x (same x ∙ sym (has_key-keys x s.member_versions)) e1
            e2,
    )

-- What a new scheduler reads from the state file is what the old one held: the queue and the
-- versions as they were, and the same members.
pub record Recovers (s : Scheduler) : Type 0 where
  pub queue : (load_state s.disk).pending ≡ s.pending
  pub versions : (load_state s.disk).member_versions ≡ s.member_versions
  pub old_members : List String
  pub new_members : List String
  pub held : s.context_members ≡ some old_members
  pub read : (load_state s.disk).context_members ≡ some new_members
  pub members : (x : String) → contains x new_members ≡ contains x old_members

save_state-eq-ok :
    (s s' : Scheduler)
    → save_state s ≡ ok s'
    → (members : List String) × (s.context_members ≡ some members)
      × (s' ≡ record s {
        disk = some (record {
          context_members = sorted members;
          member_versions = s.member_versions;
          change_queue = s.pending;
        });
      })
unfolding save_state
save_state-eq-ok s s' h = ground arith

save_state-Recovers : (s s' : Scheduler) → save_state s ≡ ok s' → Recovers s'
unfolding load_state
save_state-Recovers s s' h =
    let (members, held, e) = save_state-eq-ok s s' h in
    rw e (record {
      queue = refl;
      versions = refl;
      old_members = members;
      new_members = sorted members;
      held = held;
      read = refl;
      members = λ x. contains-sorted x members;
    })

-- After a membership callback that returns, a scheduler made from the state file has the queue, the
-- versions and the members of the one that the callback was made on.
pub cb_change_members-Recovers :
    (old new : List String) (s s' : Scheduler) → cb_change_members old new s ≡ ok s' → Recovers s'
unfolding cb_change_members
cb_change_members-Recovers old new s s' h =
    let known = keys s.member_versions in
    let (s1, _, k1) =
      >>=-eq-ok
        (queue_added (sorted (difference new known)) (record s {
          context_members = some (context_or old s.context_members);
          member_versions =
              remove_versions (difference known new)
                (add_versions (difference new known) s.member_versions);
        }))
        (λ s1. queue_removed (sorted (difference known new)) s1 >>= λ s2. save_state s2) h in
    let (s2, _, k2) =
      >>=-eq-ok (queue_removed (sorted (difference known new)) s1) (λ s2. save_state s2) k1 in
    save_state-Recovers s2 s' k2

-- After a settings callback that returns, a scheduler made from the state file has the queue, the
-- versions and the members of the one that the callback was made on.
pub cb_change_settings-Recovers :
    (changes : List (String × ℕ)) (s s' : Scheduler)
    → cb_change_settings changes s ≡ ok s'
    → Recovers s'
unfolding cb_change_settings
cb_change_settings-Recovers changes s s' h =
    let (s1, _, k) = >>=-eq-ok (queue_modifications changes s) (λ s1. save_state s1) h in
    save_state-Recovers s1 s' k
