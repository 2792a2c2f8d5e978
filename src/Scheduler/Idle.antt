-- ===== src/Scheduler/Idle.antt =====
-- juju/hooks/scheduler.py, `_queue_change` with offset 0: the merged queue of an idle scheduler
-- takes the charm where the unmerged one would.
use trusted_juju.Prelude.{
  ◌≤◌, String, Bool, true, none, some, List, [], ◌∷◌, ◌++◌, ◌≡◌, ◌≢◌, refl, ◌∙◌, length, arith,
  false, inl, inr, ◌⊎◌, Option-cases, ok, Result,
}
use trusted_juju.Scheduler.Queue.{
  ChangeType, joined, departed, modified, Change, index, new, last_of, index_of, wipe_member,
  reduce, remove_at, merge, queue_change, Error,
}
use trusted_juju.Scheduler.Presence.{act, presence, types_of, IsMerged}
use trusted_juju.Scheduler.Merge.{
  Becomes, Becomes-IsMerged, append-Becomes, removed-own, removed-others, types_of-eq-nil,
  types_of-eq-last, types_of-wipe, remove_at-wipe,
}

-- The queue that a call returns, the hooks that it holds for the unit, and their effect.
pub record Merges (c : Change) (b d : Bool) (l : List Change)
    (r : Result Error (List Change × Bool)) : Type 0 where
  pub queue : List Change
  pub notified : Bool
  pub returned : r ≡ ok (queue, notified)
  pub types : List ChangeType
  pub short : length types ≤ 1
  pub becomes : Becomes c.unit_name types l queue
  pub effect : presence types b ≡ some d

module _ (c p : Change) (l : List Change) (m : IsMerged l)
    (found : last_of c.unit_name l ≡ some p) where
  kept-Becomes : Becomes c.unit_name (p.change_type ∷ []) l l
  kept-Becomes = record {
    own = types_of-eq-last c.unit_name l p found (m c.unit_name);
    others = λ v apart. refl;
  }

  replaced-Becomes :
      (t : ChangeType)
      → Becomes c.unit_name
          (t ∷ [])
          l
          (remove_at (index_of p l) l ++ record c { change_type = t } ∷ [])
  replaced-Becomes t =
      append-Becomes (record c { change_type = t }) l (remove_at (index_of p l) l)
        (removed-own c.unit_name l p m found) (removed-others c.unit_name l p m found)

  cancelled-Becomes :
      Becomes c.unit_name [] l (remove_at (index_of p l) (wipe_member c.unit_name l))
  cancelled-Becomes = rw (remove_at-wipe c.unit_name (index_of p l) l) (record {
    own =
        types_of-wipe c.unit_name c.unit_name (remove_at (index_of p l) l)
        ∙ removed-own c.unit_name l p m found;
    others = λ v apart.
        types_of-wipe c.unit_name v (remove_at (index_of p l) l)
        ∙ removed-others c.unit_name l p m found v apart;
  })

  merge-Merges :
      (b d : Bool) (pt ct : ChangeType)
      → p.change_type ≡ pt
      → c.change_type ≡ ct
      → presence (pt ∷ ct ∷ []) b ≡ some d
      → Merges c b d l (merge c 0 (index_of p l) (reduce (index (index_of p l), pt) (new, ct)) l)
  unfolding presence act reduce merge
  merge-Merges b d departed joined ep ec h = record {
    queue = remove_at (index_of p l) l ++ record c { change_type = modified } ∷ [];
    notified = true;
    returned = refl;
    types = modified ∷ [];
    short = omega arith;
    becomes = replaced-Becomes modified;
    effect = ground arith;
  }
  merge-Merges b d joined modified ep ec h = record {
    queue = l;
    notified = false;
    returned = ground arith;
    types = joined ∷ [];
    short = omega arith;
    becomes = rw ep at kept-Becomes;
    effect = ground arith;
  }
  merge-Merges b d modified modified ep ec h = record {
    queue = l;
    notified = false;
    returned = ground arith;
    types = modified ∷ [];
    short = omega arith;
    becomes = rw ep at kept-Becomes;
    effect = ground arith;
  }
  merge-Merges b d joined departed ep ec h = record {
    queue = remove_at (index_of p l) (wipe_member c.unit_name l);
    notified = true;
    returned = ground arith;
    types = [];
    short = omega arith;
    becomes = cancelled-Becomes;
    effect = ground arith;
  }
  merge-Merges b d modified departed ep ec h = record {
    queue = remove_at (index_of p l) l ++ record c { change_type = departed } ∷ [];
    notified = true;
    returned = refl;
    types = departed ∷ [];
    short = omega arith;
    becomes = replaced-Becomes departed;
    effect = ground arith;
  }
  merge-Merges b d joined joined ep ec h = absurd (ground arith)
  merge-Merges b d modified joined ep ec h = absurd (ground arith)
  merge-Merges b d departed departed ep ec h = absurd (ground arith)
  merge-Merges b d departed modified ep ec h = absurd (ground arith)

-- A change for which no other is queued goes to the end.
unmerged-Merges :
    (c : Change) (l : List Change) (b d : Bool)
    → last_of c.unit_name l ≡ none
    → presence (c.change_type ∷ []) b ≡ some d
    → Merges c b d l (ok (l ++ c ∷ [], true))
unmerged-Merges c l b d none_found h = record {
  queue = l ++ c ∷ [];
  notified = true;
  returned = refl;
  types = c.change_type ∷ [];
  short = omega arith;
  becomes = append-Becomes c l l (types_of-eq-nil c.unit_name l none_found) (λ v apart. refl);
  effect = h;
}

queue_change-none :
    (c : Change) (l : List Change)
    → last_of c.unit_name l ≡ none
    → queue_change c 0 l ≡ ok (l ++ c ∷ [], true)
unfolding queue_change
queue_change-none c l e = ground arith

queue_change-some :
    (c : Change) (l : List Change) (p : Change)
    → last_of c.unit_name l ≡ some p
    → queue_change c 0 l
      ≡ merge c 0
          (index_of p l)
          (reduce (index (index_of p l), p.change_type) (new, c.change_type))
          l
unfolding queue_change
queue_change-some c l p e = ground arith

-- A scheduler that is not in the middle of a hook queues a change. Where the unit's queued hook, if
-- any, and the new one make sense in turn, `_queue_change` does not raise; the queue keeps one hook
-- for each unit at most; the unit's remaining hook takes the charm where the two would have taken
-- it; and the hooks of the other units stay as they were.
pub queue_change-presence :
    (c : Change) (l : List Change) (b d : Bool)
    → IsMerged l
    → presence (types_of c.unit_name l ++ c.change_type ∷ []) b ≡ some d
    → (l' : List Change) × (notified : Bool) × (queue_change c 0 l ≡ ok (l', notified))
      × IsMerged l'
      × (presence (types_of c.unit_name l') b ≡ some d)
      × ((v : String) → c.unit_name ≢ v → types_of v l' ≡ types_of v l)
queue_change-presence c l b d m h =
    let r = result (Option-cases (last_of c.unit_name l)) in
    (
      r.queue,
      r.notified,
      r.returned,
      Becomes-IsMerged c.unit_name r.types l r.queue r.becomes r.short m,
      rw (r.becomes.own) (r.effect),
      r.becomes.others,
    )
  where
    result :
        (last_of c.unit_name l ≡ none) ⊎ ((p : Change) × (last_of c.unit_name l ≡ some p))
        → Merges c b d l (queue_change c 0 l)
    result (inl e) =
        rw (queue_change-none c l e)
          (unmerged-Merges c l b d e (rw (types_of-eq-nil c.unit_name l e) at h))
    result (inr (p, e)) = rw (queue_change-some c l p e) (
        merge-Merges c p l m e b d p.change_type c.change_type refl refl
          (rw (types_of-eq-last c.unit_name l p e (m c.unit_name)) at h))
