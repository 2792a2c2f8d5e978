-- ===== src/Scheduler/Stopped.antt =====
-- juju/hooks/scheduler.py: a scheduler whose `run` is not active (before it starts, or stopped after
-- a hook error) still queues what the watches see. Its queue then never fails.
use trusted_juju.Prelude.{
  String, Bool, true, false, some, List, [], ◌∷◌, ◌++◌, ok, ◌>>=◌, ◌≡◌, ◌≢◌, refl, ◌∙◌, ap, arith,
  eq_iff, Bool-cases, inl, inr, str_eq, check, Option-cases, Result, ◌>>◌,
}
use trusted_juju.Prelude.Sets.{
  contains, add, remove_first, sorted, contains-add, contains-remove_first, IsSetLike,
  add-IsSetLike, remove_first-IsSetLike,
}
use trusted_juju.Scheduler.Queue.{
  ChangeType, joined, departed, Change, Error, key_error, queue_change,
}
use trusted_juju.Scheduler.Presence.{act, presence, types_of, IsMerged}
use trusted_juju.Scheduler.Idle.{queue_change-presence}
use trusted_juju.Scheduler.State.{Scheduler, save_state, save_if, queue, put, get_change}
use trusted_juju.Scheduler.Watch.{put_change, with_members, queue_added, queue_removed}
use trusted_juju.Scheduler.Members.{added_to, removed_from}

-- `run` is not active; the queue has one hook for each unit at most, and the unit's hook, if any, takes
-- what the charm knows of the unit to whether it is a member.
pub record Ready (known : String → Bool) (members : List String) (s : Scheduler) : Type 0 where
  pub stopped : s.running ≡ false
  pub unwaited : s.waiting ≡ false
  pub held : s.context_members ≡ some members
  pub distinct : IsSetLike members
  pub merged : IsMerged s.pending
  pub told : (x : String) → presence (types_of x s.pending) (known x) ≡ some (contains x members)

presence-append :
    (types : List ChangeType) (t : ChangeType) (b c d : Bool)
    → presence types b ≡ some c
    → act t c ≡ some d
    → presence (types ++ t ∷ []) b ≡ some d
unfolding presence
presence-append [] t b c d h e = ground arith
presence-append (u ∷ types) t b c d h e = elim (Option-cases (act u b)) [
  | inl stuck ↦ absurd (ground arith)
  | inr (b', moved) ↦ ground (arith, presence-append types t b' c d)
]

-- What saving leaves alone.
record Stays (s s' : Scheduler) : Type 0 where
  running : s'.running ≡ s.running
  waiting : s'.waiting ≡ s.waiting
  context : s'.context_members ≡ s.context_members
  pending : s'.pending ≡ s.pending

abbrev pub saved : Scheduler → List String → Scheduler
saved s members = record s {
  disk = some (record {
    context_members = sorted members;
    member_versions = s.member_versions;
    change_queue = s.pending;
  });
}

pub save_state-held :
    (s : Scheduler) (members : List String)
    → s.context_members ≡ some members
    → save_state s ≡ ok (saved s members)
unfolding save_state
save_state-held s members h = ground arith

save_if-returns :
    (b : Bool) (s : Scheduler) (members : List String)
    → s.context_members ≡ some members
    → (s' : Scheduler) × (save_if b s ≡ ok s') × Stays s s'
save_if-returns false s members h =
    (s, refl, record { running = refl; waiting = refl; context = refl; pending = refl })
save_if-returns true s members h = (
  saved s members,
  save_state-held s members h,
  record { running = refl; waiting = refl; context = refl; pending = refl },
)

queue-returns :
    (c : Change) (s : Scheduler) (members : List String) (l : List Change) (notified : Bool)
    → s.context_members ≡ some members
    → queue_change c 0 s.pending ≡ ok (l, notified)
    → (s' : Scheduler) × (queue c 0 s ≡ ok s') × Stays (record s { pending = l }) s'
unfolding queue
queue-returns c s members l notified h e =
    rw e (save_if-returns notified (record s { pending = l }) members h)

put_change-put :
    (u : String) (t : ChangeType) (members : List String) (s : Scheduler)
    → s.running ≡ false
    → s.waiting ≡ false
    → put_change u t members s
      ≡ queue
          (record { unit_name = u; change_type = t; members = sorted members })
          0
          (record s { context_members = some members })
unfolding put_change put get_change
put_change-put u t members s stopped unwaited = ground arith

-- A change of a unit that makes sense after what is queued for it is queued.
pub put_change-Ready :
    (known : String → Bool) (u : String) (t : ChangeType) (members members' : List String)
    (s : Scheduler)
    → Ready known members s
    → act t (contains u members) ≡ some (contains u members')
    → ((v : String) → u ≢ v → contains v members' ≡ contains v members)
    → IsSetLike members'
    → (s' : Scheduler) × (put_change u t members' s ≡ ok s') × Ready known members' s'
put_change-Ready known u t members members' s r does others d =
    let c : Change = record { unit_name = u; change_type = t; members = sorted members' } in
    let (l, notified, returned, merged, effect, same) =
      queue_change-presence c s.pending (known u) (contains u members') r.merged (
        presence-append (types_of u s.pending) t (known u) (contains u members)
          (contains u members') (r.told u) does) in
    let (s', queued, stays) =
      queue-returns c (record s { context_members = some members' }) members' l notified refl
        returned in
    (
      s',
      put_change-put u t members' s r.stopped r.unwaited ∙ queued,
      record {
        stopped = stays.running ∙ r.stopped;
        unwaited = stays.waiting ∙ r.unwaited;
        held = stays.context;
        distinct = d;
        merged = rw (stays.pending) merged;
        told = λ x. rw (stays.pending) (elim (Bool-cases (str_eq u x)) [
          | inl e ↦ rw (← ((eq_iff u x).0 e)) effect
          | inr e ↦
              rw (same x (ground (arith, eq_iff u x)), others x (ground (arith, eq_iff u x)))
                (r.told x)
        ]);
      },
    )

added-others :
    (u : String) (members : List String) (v : String)
    → u ≢ v
    → contains v (add u members) ≡ contains v members
added-others u members v apart = ground (arith, contains-add v u members, eq_iff u v)

removed-others :
    (u : String) (members : List String) (v : String)
    → IsSetLike members
    → u ≢ v
    → contains v (remove_first u members) ≡ contains v members
removed-others u members v d apart = ground (arith, contains-remove_first v u members d, eq_iff u v)

joins :
    (u : String) (members : List String)
    → contains u members ≡ false
    → act joined (contains u members) ≡ some (contains u (add u members))
unfolding act
joins u members h = ground (arith, contains-add u u members, eq_iff u u)

departs :
    (u : String) (members : List String)
    → IsSetLike members
    → contains u members ≡ true
    → act departed (contains u members) ≡ some (contains u (remove_first u members))
unfolding act
departs u members d h = ground (arith, contains-remove_first u u members d, eq_iff u u)

with_members-held :
    (s : Scheduler) (members : List String) (f : List String → Result Error Scheduler)
    → s.context_members ≡ some members
    → with_members s.context_members f ≡ f members
with_members-held s members f h = ap (λ o. with_members o f) h

pub queue_added-Ready :
    (known : String → Bool) (units members : List String) (s : Scheduler)
    → IsSetLike units
    → ((x : String) → contains x units ≡ true → contains x members ≡ false)
    → Ready known members s
    → (s' : Scheduler) × (queue_added units s ≡ ok s') × Ready known (added_to units members) s'
unfolding queue_added contains
queue_added-Ready known [] members s d fresh r = (s, refl, r)
queue_added-Ready known (u ∷ units) members s d fresh r =
    let (s1, put1, r1) =
      put_change-Ready known u joined members (add u members) s r
        (joins u members (fresh u (ground (arith, eq_iff u u)))) (added-others u members)
        (add-IsSetLike u members r.distinct) in
    let (s2, put2, r2) =
      queue_added-Ready known units (add u members) s1 d.1
        (λ x h. ground (arith, fresh x, eq_iff u x, contains-add x u members)) r1 in
    (s2, with_members-held s members _ r.held ∙ ap (λ o. o >>= queue_added units) put1 ∙ put2, r2)

pub queue_removed-Ready :
    (known : String → Bool) (units members : List String) (s : Scheduler)
    → IsSetLike units
    → ((x : String) → contains x units ≡ true → contains x members ≡ true)
    → Ready known members s
    → (s' : Scheduler) × (queue_removed units s ≡ ok s')
      × Ready known (removed_from units members) s'
unfolding queue_removed contains
queue_removed-Ready known [] members s d there r = (s, refl, r)
queue_removed-Ready known (u ∷ units) members s d there r =
    let member = there u (ground (arith, eq_iff u u)) in
    let (s1, put1, r1) =
      put_change-Ready known u departed members (remove_first u members) s r
        (departs u members r.distinct member) (λ v. removed-others u members v r.distinct)
        (remove_first-IsSetLike u members r.distinct) in
    let (s2, put2, r2) =
      queue_removed-Ready known units (remove_first u members) s1 d.1
        (λ x h. ground (arith, there x, eq_iff u x, contains-remove_first x u members r.distinct))
        r1 in
    (
      s2,
      with_members-held s members _ r.held
          ∙ ap
              (λ b.
                check b key_error
                >> (put_change u departed (remove_first u members) s >>= queue_removed units))
              member
          ∙ ap (λ o. o >>= queue_removed units) put1
          ∙ put2,
      r2,
    )
