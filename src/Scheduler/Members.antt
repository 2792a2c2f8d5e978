-- ===== src/Scheduler/Members.antt =====
-- juju/hooks/scheduler.py: the members that the scheduler records, through the watch callbacks.
use trusted_juju.Prelude.{
  ℕ, String, Bool, true, false, not, ◌&&◌, ◌||◌, some, List, [], ◌∷◌, Result, ok, ◌≡◌, refl, subst,
  ◌>>=◌, ◌>>◌, check, ◌∙◌, arith, >>=-eq-ok, Bool-cases, inl, inr,
}
use trusted_juju.Prelude.Dict.{Dict, insert, remove, keys, has_key, lookup-insert, lookup-remove}
use trusted_juju.Prelude.Sets.{
  contains, add, remove_first, difference, sorted, contains-difference, has_key-keys,
}
use trusted_juju.Scheduler.Queue.{
  ChangeType, joined, departed, Change, Error, key_error, queue_change,
}
use trusted_juju.Scheduler.State.{
  Scheduler, save_state, save_if, queue, put, put_to, get_change, wake, offset_of,
}
use trusted_juju.Scheduler.Watch.{
  with_members, put_change, add_versions, remove_versions, queue_added, queue_removed,
  cb_change_members, context_or,
}

-- What queueing leaves alone.
pub record SameMembers (s s' : Scheduler) : Type 0 where
  pub running : s'.running ≡ s.running
  pub context : s'.context_members ≡ s.context_members
  pub versions : s'.member_versions ≡ s.member_versions

pub save_state-SameMembers : (s s' : Scheduler) → save_state s ≡ ok s' → SameMembers s s'
unfolding save_state
save_state-SameMembers s s' h = ground arith

queue-SameMembers : (c : Change) (o : ℕ) (s s' : Scheduler) → queue c o s ≡ ok s' → SameMembers s s'
unfolding queue
queue-SameMembers c o s s' h =
    let ((pending, notified), _, e) =
      >>=-eq-ok (queue_change c o s.pending)
        (λ (pending, notified). save_if notified (record s { pending = pending })) h in
    elim (Bool-cases notified) [
      | inl saved ↦
          let same = save_state-SameMembers (record s { pending = pending }) s' (rw saved at e) in
          record { running = same.running; context = same.context; versions = same.versions }
      | inr kept ↦
          let same : ok (record s { pending = pending }) ≡ ok s' = rw kept at e in
          record { running = cc; context = cc; versions = cc }
    ]

wake-SameMembers : (s : Scheduler) → SameMembers s (wake s)
wake-SameMembers s = ground arith

put_to-SameMembers :
    (b : Bool) (c : Change) (o : ℕ) (s s' : Scheduler) → put_to b c o s ≡ ok s' → SameMembers s s'
put_to-SameMembers true c o s s' h =
    let (s1, queued, e) = >>=-eq-ok (queue c 0 s) (λ s1. ok (wake s1)) h in
    let same = queue-SameMembers c 0 s s1 queued in
    let woken = wake-SameMembers s1 in
    let last : ok (wake s1) ≡ ok s' = e in
    record {
      running = cc (woken.running, same.running);
      context = cc (woken.context, same.context);
      versions = cc (woken.versions, same.versions);
    }
put_to-SameMembers false c o s s' h = queue-SameMembers c o s s' h

put-SameMembers : (c : Change) (o : ℕ) (s s' : Scheduler) → put c o s ≡ ok s' → SameMembers s s'
unfolding put
put-SameMembers c o s s' h = put_to-SameMembers s.waiting c o s s' h

has_key-add_versions :
    (k : String) (units : List String) (m : Dict ℕ)
    → has_key k (add_versions units m) ≡ (contains k units || has_key k m)
unfolding add_versions contains
has_key-add_versions k [] m = refl
has_key-add_versions k (u ∷ units) m =
    ground (arith, has_key-add_versions k units (insert u 0 m), lookup-insert u k 0 m)

has_key-remove_versions :
    (k : String) (units : List String) (m : Dict ℕ)
    → has_key k (remove_versions units m) ≡ (not (contains k units) && has_key k m)
unfolding remove_versions contains
has_key-remove_versions k [] m = refl
has_key-remove_versions k (u ∷ units) m =
    ground (arith, has_key-remove_versions k units (remove u m), lookup-remove u k m)

-- The context after the units of the list are added, or removed.
abbrev pub added_to : List String → List String → List String
added_to [] members = members
added_to (u ∷ units) members = added_to units (add u members)

abbrev pub removed_from : List String → List String → List String
removed_from [] members = members
removed_from (u ∷ units) members = removed_from units (remove_first u members)

ok-context :
    {s s' : Scheduler}
    → ◌≡◌ {A = Result Error Scheduler} (ok s) (ok s')
    → s'.context_members ≡ s.context_members
ok-context h = cc

ok-versions :
    {s s' : Scheduler}
    → ◌≡◌ {A = Result Error Scheduler} (ok s) (ok s')
    → s'.member_versions ≡ s.member_versions
ok-versions h = cc

pub put_change-members :
    (u : String) (t : ChangeType) (members : List String) (s s' : Scheduler)
    → put_change u t members s ≡ ok s'
    → (s'.context_members ≡ some members)
      × (s'.member_versions ≡ s.member_versions)
      × (s'.running ≡ s.running)
unfolding put_change get_change
put_change-members u t members s s' h =
    let same =
      put-SameMembers (record { unit_name = u; change_type = t; members = sorted members })
        (offset_of s.running) (record s { context_members = some members }) s' h in
    (same.context, same.versions, same.running)

queue_added-members :
    (units members : List String) (s s' : Scheduler)
    → s.context_members ≡ some members
    → queue_added units s ≡ ok s'
    → (s'.context_members ≡ some (added_to units members))
      × (s'.member_versions ≡ s.member_versions)
unfolding queue_added
queue_added-members [] members s s' e h = (ok-context h ∙ e, ok-versions h)
queue_added-members (u ∷ units) members s s' e h =
    let f = λ (ms : List String). put_change u joined (add u ms) s >>= queue_added units in
    let (s2, p, q) =
      >>=-eq-ok (put_change u joined (add u members) s) (queue_added units)
        (subst (λ o. with_members o f ≡ ok s') e h) in
    let (c, v, _) = put_change-members u joined (add u members) s s2 p in
    let (c', v') = queue_added-members units (add u members) s2 s' c q in (c', v' ∙ v)

queue_removed-members :
    (units members : List String) (s s' : Scheduler)
    → s.context_members ≡ some members
    → queue_removed units s ≡ ok s'
    → (s'.context_members ≡ some (removed_from units members))
      × (s'.member_versions ≡ s.member_versions)
unfolding queue_removed
queue_removed-members [] members s s' e h = (ok-context h ∙ e, ok-versions h)
queue_removed-members (u ∷ units) members s s' e h =
    let g =
      λ (ms : List String). put_change u departed (remove_first u ms) s >>= queue_removed units in
    let (_, _, h') =
      >>=-eq-ok (check (contains u members) key_error) (λ _. g members)
        (subst (λ o. with_members o (λ ms. check (contains u ms) key_error >> g ms) ≡ ok s') e h) in
    let (s2, p, q) =
      >>=-eq-ok (put_change u departed (remove_first u members) s) (queue_removed units) h' in
    let (c, v, _) = put_change-members u departed (remove_first u members) s s2 p in
    let (c', v') = queue_removed-members units (remove_first u members) s2 s' c q in (c', v' ∙ v)

-- The two loops and the last save together.
pub cb_change_members-members :
    (old new : List String) (s s' : Scheduler)
    → cb_change_members old new s ≡ ok s'
    → (s'.context_members
        ≡ some (
            removed_from (sorted (difference (keys s.member_versions) new)) (
              added_to
                (sorted (difference new (keys s.member_versions)))
                (context_or old s.context_members))))
      × (s'.member_versions
          ≡ remove_versions
              (difference (keys s.member_versions) new)
              (add_versions (difference new (keys s.member_versions)) s.member_versions))
unfolding cb_change_members
cb_change_members-members old new s s' h =
    let added = difference new (keys s.member_versions) in
    let removed = difference (keys s.member_versions) new in
    let s0 : Scheduler = record s {
      context_members = some (context_or old s.context_members);
      member_versions = remove_versions removed (add_versions added s.member_versions);
    } in
    let (s1, h1, k1) =
      >>=-eq-ok (queue_added (sorted added) s0)
        (λ s1. queue_removed (sorted removed) s1 >>= λ s2. save_state s2) h in
    let (s2, h2, h3) = >>=-eq-ok (queue_removed (sorted removed) s1) (λ s2. save_state s2) k1 in
    let (c1, v1) =
      queue_added-members (sorted added) (context_or old s.context_members) s0 s1 refl h1 in
    let (c2, v2) = queue_removed-members (sorted removed) _ s1 s2 c1 h2 in
    let same = save_state-SameMembers s2 s' h3 in (same.context ∙ c2, same.versions ∙ v2 ∙ v1)

settle :
    (s : Scheduler) (new : List String) (x : String)
    → (not (contains x (difference (keys s.member_versions) new))
        && has_key x (add_versions (difference new (keys s.member_versions)) s.member_versions))
      ≡ contains x new
settle s new x =
    let known = keys s.member_versions in
    ground (
      arith,
      has_key-add_versions x (difference new known) s.member_versions,
      contains-difference x known new,
      contains-difference x new known,
      has_key-keys x s.member_versions,
    )

-- After a membership callback that returns, the scheduler has a settings version for exactly the
-- units of the new membership.
pub cb_change_members-versions :
    (old new : List String) (s s' : Scheduler) (x : String)
    → cb_change_members old new s ≡ ok s'
    → has_key x s'.member_versions ≡ contains x new
cb_change_members-versions old new s s' x h =
    let known = keys s.member_versions in
    rw (cb_change_members-members old new s s' h).1 (
      has_key-remove_versions x (difference known new)
        (add_versions (difference new known) s.member_versions)
      ∙ settle s new x)
