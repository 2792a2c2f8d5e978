-- ===== src/Scheduler/Busy.antt =====
-- juju/hooks/scheduler.py, `_queue_change` with offset 1: the queue while its head's hook runs.
use trusted_juju.Prelude.{
  String, true, false, none, some, List, [], ◌∷◌, ◌++◌, ◌≡◌, ◌≢◌, refl, ◌∙◌, arith, eq_iff, ok,
}
use trusted_juju.Scheduler.Queue.{
  joined, departed, Change, last_of, index_of, previous, wipe_member, reduce, remove_at, merge,
  queue_change,
}
use trusted_juju.Scheduler.Presence.{act, presence, types_of}
use trusted_juju.Scheduler.Merge.{types_of-wipe, change_eq-unit, change_eq_refl, types_of-eq-nil}

-- Where no other hook of the unit waits behind the head, the change goes to the end.
pub queue_change_busy_append :
    (h c : Change) (l : List Change)
    → last_of c.unit_name l ≡ none
    → queue_change c 1 (h ∷ l) ≡ ok (h ∷ l ++ c ∷ [], true)
unfolding queue_change previous
queue_change_busy_append h c l e = ground arith

last_of-second :
    (q p : Change) (u : String) (l : List Change)
    → p.unit_name ≡ u
    → last_of u l ≡ none
    → last_of u (q ∷ p ∷ l) ≡ some p
unfolding last_of
last_of-second q p u l e n = ground (arith, eq_iff p.unit_name u)

index_of-second :
    (q p : Change) (l : List Change) → q.unit_name ≢ p.unit_name → index_of p (q ∷ p ∷ l) ≡ 1
unfolding index_of
index_of-second q p l apart = ground (arith, change_eq-unit q p, change_eq_refl p)

cancel-busy :
    (h q p c : Change) (l : List Change)
    → p.change_type ≡ joined
    → c.change_type ≡ departed
    → last_of c.unit_name (q ∷ p ∷ l) ≡ some p
    → index_of p (q ∷ p ∷ l) ≡ 1
    → queue_change c 1 (h ∷ q ∷ p ∷ l) ≡ ok (h ∷ wipe_member c.unit_name (p ∷ l), true)
unfolding queue_change previous reduce merge remove_at wipe_member
cancel-busy h q p c l ep ec found at_one = ground arith

joined_alone :
    (u : String) (p : Change) (l : List Change)
    → p.unit_name ≡ u
    → p.change_type ≡ joined
    → last_of u l ≡ none
    → types_of u (p ∷ l) ≡ joined ∷ []
unfolding types_of
joined_alone u p l e t n = ground (arith, eq_iff p.unit_name u, types_of-eq-nil u l n)

not_other :
    (u : String) (q : Change) (l : List Change)
    → q.unit_name ≢ u
    → types_of u (q ∷ l) ≡ types_of u l
unfolding types_of
not_other u q l apart = ground (arith, eq_iff q.unit_name u)

-- While the head's hook runs, a unit that joined and whose hook waits in the third place departs.
-- The queue loses the hook in the second place, of another unit, and keeps the join: a charm that
-- did not know the unit is told that it came, and not that it went.
pub queue_change_busy_loses_other :
    (h q p c : Change) (l : List Change)
    → q.unit_name ≢ c.unit_name
    → p.unit_name ≡ c.unit_name
    → p.change_type ≡ joined
    → c.change_type ≡ departed
    → last_of c.unit_name l ≡ none
    → (queue_change c 1 (h ∷ q ∷ p ∷ l) ≡ ok (h ∷ wipe_member c.unit_name (p ∷ l), true))
      × (presence (types_of c.unit_name (wipe_member c.unit_name (p ∷ l))) false ≡ some true)
      × (presence (types_of c.unit_name (q ∷ p ∷ l) ++ c.change_type ∷ []) false ≡ some false)
unfolding presence act
queue_change_busy_loses_other h q p c l apart same ep ec absent =
    let own = joined_alone c.unit_name p l same ep absent in
    (
      cancel-busy h q p c l ep ec (last_of-second q p c.unit_name l same absent)
          (index_of-second q p l (λ e. apart (e ∙ same))),
      rw (types_of-wipe c.unit_name c.unit_name (p ∷ l), own) refl,
      rw (not_other c.unit_name q (p ∷ l) apart, own, ec) refl,
    )
