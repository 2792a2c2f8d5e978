-- ===== src/Scheduler/Tests.antt =====
-- Runs of the hook queue and the scheduler on small inputs, and the theorems about them at inputs
-- that meet their hypotheses.
use trusted_juju.Prelude.{
  String, ◌≡◌, ◌≢◌, refl, inl, inr, Bool, true, false, none, some, List, [], ◌∷◌, ◌++◌, ok, arith,
  str_eq, eq_iff, Bool-cases,
}
use trusted_juju.Prelude.Dict.{lookup, insert, remove, has_key}
use trusted_juju.Prelude.Sets.{contains, sorted, add, remove_first, difference, IsSetLike}
use trusted_juju.Scheduler.Queue.{
  ChangeType, joined, departed, modified, Change, last_of, queue_change, reduce, wipe_member,
}
use trusted_juju.Scheduler.Presence.{act, presence, types_of, outcome, IsMerged}
use trusted_juju.Scheduler.Idle.{queue_change-presence}
use trusted_juju.Scheduler.Busy.{queue_change_busy_loses_other}
use trusted_juju.Scheduler.State.{
  Scheduler, create_state, load_state, save_state, get_change, queue, put, finished_change,
  next_change, start, queue_modified, after_hook, hook_done, stop, pop,
}
use trusted_juju.Scheduler.Watch.{
  add_versions, remove_versions, put_change, queue_added, queue_removed, cb_change_members,
  queue_modifications, cb_change_settings,
}
use trusted_juju.Scheduler.Recovery.{
  Recovers, cb_change_members-context, cb_change_members-Recovers,
}
use trusted_juju.Scheduler.Stopped.{Ready}
use trusted_juju.Scheduler.Returns.{cb_change_members-returns, cb_change_settings-returns}

abbrev change : String → ChangeType → Change
change name t = record { unit_name = name; change_type = t; members = "a" ∷ "b" ∷ [] }

program : Unit {0}
unfolding presence types_of outcome queue_change reduce create_state load_state save_state
    get_change queue put finished_change next_change start queue_modified after_hook hook_done stop
    pop add_versions remove_versions put_change queue_added queue_removed cb_change_members
    queue_modifications cb_change_settings lookup insert remove contains sorted add remove_first
    difference last_of
program = tt

-- A join waits for "a" and a change for "b"; "a" departs, and both hooks of "a" are gone.
abbrev waiting : List Change
waiting = change "a" joined ∷ change "b" modified ∷ []

waiting-IsMerged : IsMerged waiting
unfolding types_of
waiting-IsMerged name = elim (Bool-cases (str_eq "a" name)) [
  | inl e ↦ rw (← ((eq_iff "a" name).0 e)) (omega arith)
  | inr e ↦ elim (Bool-cases (str_eq "b" name)) [
    | inl e' ↦ rw (e, e') (omega arith)
    | inr e' ↦ rw (e, e') (omega arith)
  ]
]

departs :
    queue_change (change "a" departed) 0 waiting
    ≡ ok (record { unit_name = "b"; change_type = modified; members = "b" ∷ [] } ∷ [], true)
unfolding program
departs = refl

queue_change-presence_example :
    (l' : List Change) × (notified : Bool) × (queue_change (change "a" departed) 0 waiting
      ≡ ok (l', notified))
    × IsMerged l'
    × (presence (types_of "a" l') false ≡ some false)
    × ((v : String) → "a" ≢ v → types_of v l' ≡ types_of v waiting)
unfolding program
queue_change-presence_example =
    queue_change-presence (change "a" departed) waiting false false waiting-IsMerged refl

-- "x" is being handled; the hook of "b" is lost, and the join of "a" stays.
queue_change_busy_loses_other_example :
    (queue_change
        (change "a" departed)
        1
        (change "x" modified ∷ change "b" modified ∷ change "a" joined ∷ [])
      ≡ ok (change "x" modified ∷ wipe_member "a" (change "a" joined ∷ []), true))
    × (presence (types_of "a" (wipe_member "a" (change "a" joined ∷ []))) false ≡ some true)
    × (presence (types_of "a" (change "b" modified ∷ change "a" joined ∷ []) ++ departed ∷ []) false
        ≡ some false)
unfolding program
queue_change_busy_loses_other_example =
    queue_change_busy_loses_other (change "x" modified) (change "b" modified) (change "a" joined)
      (change "a" departed) [] (ground (arith, eq_iff "b" "a")) refl refl refl refl

-- A scheduler that knows "a", and waits for a change.
abbrev knows_a : Scheduler
knows_a = record {
  running = true;
  context_members = some ("a" ∷ []);
  member_versions = ("a", 0) ∷ [];
  pending = [];
  waiting = true;
  executing = none;
  disk = none;
}

-- "b" comes and "a" goes: the join is started at once, and the departure waits behind it.
abbrev knows_b : Scheduler
knows_b = record {
  running = true;
  context_members = some ("b" ∷ []);
  member_versions = ("b", 0) ∷ [];
  pending =
      record { unit_name = "b"; change_type = joined; members = "a" ∷ "b" ∷ [] }
      ∷ record { unit_name = "a"; change_type = departed; members = "b" ∷ [] }
      ∷ [];
  waiting = false;
  executing = some (record { unit_name = "b"; change_type = joined; members = "a" ∷ "b" ∷ [] });
  disk = some (record {
    context_members = "b" ∷ [];
    member_versions = ("b", 0) ∷ [];
    change_queue =
        record { unit_name = "b"; change_type = joined; members = "a" ∷ "b" ∷ [] }
        ∷ record { unit_name = "a"; change_type = departed; members = "b" ∷ [] }
        ∷ [];
  });
}

members_change : cb_change_members ("a" ∷ []) ("b" ∷ []) knows_a ≡ ok knows_b
unfolding program
members_change = refl

knows_a-same : (x : String) → contains x ("a" ∷ []) ≡ has_key x knows_a.member_versions
unfolding contains lookup
knows_a-same x = ground arith

cb_change_members-context_example :
    (members' : List String) × (knows_b.context_members ≡ some members')
    × IsSetLike members'
    × ((x : String) → contains x members' ≡ contains x ("b" ∷ []))
unfolding program
cb_change_members-context_example =
    cb_change_members-context ("a" ∷ []) ("b" ∷ []) ("a" ∷ []) knows_a knows_b refl (refl, tt)
      knows_a-same members_change

cb_change_members-Recovers_example : Recovers knows_b
cb_change_members-Recovers_example =
    cb_change_members-Recovers ("a" ∷ []) ("b" ∷ []) knows_a knows_b members_change

abbrev sees_version : Scheduler
sees_version = record {
  running = true;
  context_members = some ("a" ∷ []);
  member_versions = ("a", 3) ∷ [];
  pending = record { unit_name = "a"; change_type = modified; members = "a" ∷ [] } ∷ [];
  waiting = false;
  executing = some (record { unit_name = "a"; change_type = modified; members = "a" ∷ [] });
  disk = some (record {
    context_members = "a" ∷ [];
    member_versions = ("a", 3) ∷ [];
    change_queue = record { unit_name = "a"; change_type = modified; members = "a" ∷ [] } ∷ [];
  });
}

settings_change : cb_change_settings (("a", 3) ∷ ("a", 2) ∷ []) knows_a ≡ ok sees_version
unfolding program
settings_change = refl

-- The hook succeeds, the queue is empty, and the scheduler waits again.
hook_succeeds :
    hook_done true sees_version
    ≡ ok (record {
      running = true;
      context_members = some ("a" ∷ []);
      member_versions = ("a", 3) ∷ [];
      pending = [];
      waiting = true;
      executing = none;
      disk = some (record {
        context_members = "a" ∷ [];
        member_versions = ("a", 3) ∷ [];
        change_queue = [];
      });
    })
unfolding program
hook_succeeds = refl

-- A stopped scheduler of which the charm knows nobody: "a" has joined, and its hook waits.
abbrev stopped_a : Scheduler
stopped_a = record {
  running = false;
  context_members = some ("a" ∷ []);
  member_versions = ("a", 0) ∷ [];
  pending = change "a" joined ∷ [];
  waiting = false;
  executing = none;
  disk = none;
}

stopped_a-told :
    (x : String) → presence (types_of x stopped_a.pending) false ≡ some (contains x ("a" ∷ []))
unfolding types_of presence act contains
stopped_a-told x = elim (Bool-cases (str_eq "a" x)) [ inl e ↦ rw e refl | inr e ↦ rw e refl ]

stopped_a-Ready : Ready (λ x. false) ("a" ∷ []) stopped_a
unfolding types_of contains
stopped_a-Ready = record {
  stopped = refl;
  unwaited = refl;
  held = refl;
  distinct = (refl, tt);
  merged = λ x. elim (Bool-cases (str_eq "a" x)) [
    | inl e ↦ rw e (omega arith)
    | inr e ↦ rw e (omega arith)
  ];
  told = stopped_a-told;
}

cb_change_members-returns_example :
    (s' : Scheduler) × (members' : List String) × (cb_change_members ("a" ∷ []) ("b" ∷ []) stopped_a
      ≡ ok s')
    × Ready (λ x. false) members' s'
    × ((x : String) → contains x members' ≡ contains x ("b" ∷ []))
    × ((x : String) → contains x members' ≡ has_key x s'.member_versions)
cb_change_members-returns_example =
    cb_change_members-returns (λ x. false) ("a" ∷ []) ("b" ∷ []) ("a" ∷ []) stopped_a refl
      stopped_a-Ready knows_a-same

cb_change_settings-returns_example :
    (s' : Scheduler) × (cb_change_settings (("a", 5) ∷ []) stopped_a ≡ ok s')
    × Ready (λ x. false) ("a" ∷ []) s'
unfolding program
cb_change_settings-returns_example =
    cb_change_settings-returns (λ x. false) (("a", 5) ∷ []) ("a" ∷ []) stopped_a (refl, tt)
      stopped_a-Ready
