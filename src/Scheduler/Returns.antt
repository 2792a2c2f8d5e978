-- ===== src/Scheduler/Returns.antt =====
-- juju/hooks/scheduler.py: the watch callbacks return where the scheduler is stopped, and the queue
-- that they leave still makes sense to the charm.
use trusted_juju.Prelude.{
  ℕ, String, Bool, true, false, ◌||◌, Option, some, List, [], ◌∷◌, ok, ◌>>=◌, ltb, ◌≡◌, refl, sym,
  ◌∙◌, ap, arith, Bool-cases, inl, inr, Result, All,
}
use trusted_juju.Prelude.Dict.{Dict, insert, keys, has_key}
use trusted_juju.Prelude.Sets.{
  has_key-keys, contains, difference, sorted, contains-sorted, contains-difference,
  sorted-IsSetLike, difference-IsSetLike,
}
use trusted_juju.Scheduler.Queue.{modified, Error}
use trusted_juju.Scheduler.Presence.{act}
use trusted_juju.Scheduler.State.{Scheduler, save_state, put, get_change, offset_of}
use trusted_juju.Scheduler.Watch.{
  put_change, add_versions, remove_versions, queue_added, queue_removed, context_or,
  cb_change_members, version_of, queue_modifications, cb_change_settings,
}
use trusted_juju.Scheduler.Members.{added_to, removed_from, cb_change_members-versions}
use trusted_juju.Scheduler.Recovery.{added_to-members, cb_change_members-context}
use trusted_juju.Scheduler.Stopped.{
  Ready, saved, save_state-held, put_change-Ready, queue_added-Ready, queue_removed-Ready,
}

-- The scheduler with the members that a membership callback starts from.
abbrev pub with_context : List String → Scheduler → Scheduler
with_context members s = record s { context_members = some members }

saved-Ready :
    (known : String → Bool) (members : List String) (s : Scheduler)
    → Ready known members s
    → (s' : Scheduler) × (save_state s ≡ ok s') × Ready known members s'
saved-Ready known members s r = (
  saved s members,
  save_state-held s members r.held,
  record {
    stopped = r.stopped;
    unwaited = r.unwaited;
    held = r.held;
    distinct = r.distinct;
    merged = r.merged;
    told = r.told;
  },
)

reversioned-Ready :
    (known : String → Bool) (members : List String) (versions : Dict ℕ) (s : Scheduler)
    → Ready known members s
    → Ready known members (record s { member_versions = versions })
reversioned-Ready known members versions s r = record {
  stopped = r.stopped;
  unwaited = r.unwaited;
  held = r.held;
  distinct = r.distinct;
  merged = r.merged;
  told = r.told;
}

fresh :
    (new members : List String) (s : Scheduler) (x : String)
    → contains x members ≡ has_key x s.member_versions
    → contains x (sorted (difference new (keys s.member_versions))) ≡ true
    → contains x members ≡ false
fresh new members s x same h = ground (
  arith,
  contains-sorted x (difference new (keys s.member_versions)),
  contains-difference x new (keys s.member_versions),
  has_key-keys x s.member_versions,
)

there :
    (new members units : List String) (s : Scheduler) (x : String)
    → contains x members ≡ has_key x s.member_versions
    → contains x units
      ≡ (contains x (sorted (difference new (keys s.member_versions))) || contains x members)
    → contains x (sorted (difference (keys s.member_versions) new)) ≡ true
    → contains x units ≡ true
there new members units s x same grown h = ground (
  arith,
  contains-sorted x (difference (keys s.member_versions) new),
  contains-difference x (keys s.member_versions) new,
  has_key-keys x s.member_versions,
)

callback-Ready :
    (known : String → Bool) (old new members : List String) (s : Scheduler)
    → context_or old s.context_members ≡ members
    → Ready known members (with_context members s)
    → ((x : String) → contains x members ≡ has_key x s.member_versions)
    → (s' : Scheduler) × (out : List String) × (cb_change_members old new s ≡ ok s')
      × Ready known out s'
unfolding cb_change_members
callback-Ready known old new members s start r same =
    let units = keys s.member_versions in
    let added = sorted (difference new units) in
    let removed = sorted (difference units new) in
    let versions =
      remove_versions (difference units new)
        (add_versions (difference new units) s.member_versions) in
    let (s1, e1, r1) =
      queue_added-Ready known added members
        (record s { context_members = some members; member_versions = versions })
        (sorted-IsSetLike (difference new units) (difference-IsSetLike new units))
        (λ x. fresh new members s x (same x))
        (reversioned-Ready known members versions (with_context members s) r) in
    let (s2, e2, r2) =
      queue_removed-Ready known removed (added_to added members) s1
        (sorted-IsSetLike (difference units new) (difference-IsSetLike units new))
        (λ x.
          there new members (added_to added members) s x (same x)
            (added_to-members x added members r.distinct).1)
        r1 in
    let (s3, e3, r3) = saved-Ready known _ s2 r2 in
    (
      s3,
      removed_from removed (added_to added members),
      ap
            (λ (ms : List String).
              queue_added added (record s { context_members = some ms; member_versions = versions })
              >>= λ s1. queue_removed removed s1 >>= λ s2. save_state s2)
            start
          ∙ ap (λ o. o >>= λ s1. queue_removed removed s1 >>= λ s2. save_state s2) e1
          ∙ ap (λ o. o >>= λ s2. save_state s2) e2
          ∙ e3,
      r3,
    )

held-same :
    {o : Option (List String)} {out members : List String} (x : String)
    → o ≡ some out
    → o ≡ some members
    → contains x out ≡ contains x members
held-same x h k = cc

-- A scheduler is stopped; its queue has one hook for each unit at most, which takes what the charm
-- knows of the unit to whether the unit is a member; and the members (before the first callback, the
-- old membership) are the units with a recorded version. Then a membership callback raises nothing,
-- the members become the new membership, and all of this still holds.
pub cb_change_members-returns :
    (known : String → Bool) (old new members : List String) (s : Scheduler)
    → context_or old s.context_members ≡ members
    → Ready known members (with_context members s)
    → ((x : String) → contains x members ≡ has_key x s.member_versions)
    → (s' : Scheduler) × (members' : List String) × (cb_change_members old new s ≡ ok s')
      × Ready known members' s'
      × ((x : String) → contains x members' ≡ contains x new)
      × ((x : String) → contains x members' ≡ has_key x s'.member_versions)
cb_change_members-returns known old new members s start r same =
    let (s', out, returned, r') = callback-Ready known old new members s start r same in
    let (members', held, _, current) =
      cb_change_members-context old new members s s' start r.distinct same returned in
    let now = λ (x : String). held-same x r'.held held ∙ current x in
    (
      s',
      out,
      returned,
      r',
      now,
      λ x. now x ∙ sym (cb_change_members-versions old new s s' x returned),
    )

modifies :
    (u : String) (members : List String)
    → contains u members ≡ true
    → act modified (contains u members) ≡ some (contains u members)
unfolding act
modifies u members h = ground arith

put_modified :
    (u : String) (members : List String) (s s' : Scheduler) (k : Scheduler → Result Error Scheduler)
    → s.context_members ≡ some members
    → put_change u modified members s ≡ ok s'
    → (get_change u modified s.context_members >>= λ change.
        put change (offset_of s.running) s >>= k)
      ≡ k s'
unfolding put_change get_change
put_modified u members s s' k held e =
    ap
      (λ o. get_change u modified o >>= λ change.
        put change (offset_of s.running) (record s { context_members = o }) >>= k)
      held
    ∙ ap (λ o. o >>= k) e

modifications-Ready :
    (known : String → Bool) (changes : List (String × ℕ)) (members : List String) (s : Scheduler)
    → All (λ (c : String × ℕ). contains c.0 members ≡ true) changes
    → Ready known members s
    → (s' : Scheduler) × (queue_modifications changes s ≡ ok s') × Ready known members s'
unfolding queue_modifications
modifications-Ready known [] members s h r = (s, refl, r)
modifications-Ready known ((u, version) ∷ changes) members s h r =
    elim (Bool-cases (ltb (version_of u s.member_versions) version)) [
      | inl newer ↦
          let s1 = record s { member_versions = insert u version s.member_versions } in
          let r1 = reversioned-Ready known members (insert u version s.member_versions) s r in
          let (s2, e2, r2) =
            put_change-Ready known u modified members members s1 r1 (modifies u members h.0)
              (λ v apart. refl) r.distinct in
          let (s3, e3, r3) = modifications-Ready known changes members s2 h.1 r2 in
          (
            s3,
            rw newer (put_modified u members s1 s2 (queue_modifications changes) r.held e2 ∙ e3),
            r3,
          )
      | inr older ↦ rw older (modifications-Ready known changes members s h.1 r)
    ]

-- A scheduler is stopped, and its queue has one hook for each unit at most, which takes what the charm
-- knows of the unit to whether the unit is a member. Then a settings callback for members raises
-- nothing, and all of this still holds.
pub cb_change_settings-returns :
    (known : String → Bool) (changes : List (String × ℕ)) (members : List String) (s : Scheduler)
    → All (λ (c : String × ℕ). contains c.0 members ≡ true) changes
    → Ready known members s
    → (s' : Scheduler) × (cb_change_settings changes s ≡ ok s') × Ready known members s'
unfolding cb_change_settings
cb_change_settings-returns known changes members s h r =
    let (s1, e1, r1) = modifications-Ready known changes members s h r in
    let (s2, e2, r2) = saved-Ready known members s1 r1 in
    (s2, ap (λ o. o >>= λ s1. save_state s1) e1 ∙ e2, r2)
