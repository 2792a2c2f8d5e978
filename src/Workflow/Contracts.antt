-- ===== src/Workflow/Contracts.antt =====
-- juju/lib/statemachine.py: contracts of the actions of a workflow, and what firing keeps of them.
-- Between transitions the state and the world of the actions satisfy an invariant; each action has
-- a precondition of its own, since an error transition starts where another action has failed.
use trusted_juju.Prelude.{
  ℕ, zero, suc, String, Bool, true, false, Option, none, some, List, [], ◌∷◌, ◌≡◌, ◌≢◌, refl, ◌∙◌,
  ap, Result, ok, raise, arith, Bool-cases, Option-cases, inl, inr,
}
use trusted_juju.Prelude.Dict.{Dict}
use trusted_juju.Workflow.Defs.{
  Error, action_error, invalid_transition, out_of_fuel, State, Transition, Workflow, get_transition,
  get_transitions, has_id, collect, ids_of,
}
use trusted_juju.Workflow.Machine.{
  Outcome, no_action, returned, failed, crashed, Actions, Machine, Answer, Fire, get_state,
  set_state, set_inflight, with_world, update, get_available_transitions, first_automatic,
  then_return, fire_first, fire_automatic_from, fire_automatic_transitions, complete, recover_by,
  after_action, fire_known, fire_among, fire_transition,
}
use trusted_juju.Workflow.Paths.{state-set_inflight}

get_transition-ne-action : (id : String) (w : Workflow) → get_transition id w ≢ raise action_error
unfolding get_transition
get_transition-ne-action id w h = ground arith

collect-ne-action : (ids : List String) (w : Workflow) → collect ids w ≢ raise action_error
unfolding collect
collect-ne-action [] w h = cc
collect-ne-action (id ∷ ids) w h =
    ground (arith, get_transition-ne-action id w, collect-ne-action ids w)

get_transitions-ne-action : (s : State) (w : Workflow) → get_transitions s w ≢ raise action_error
unfolding get_transitions
get_transitions-ne-action s w h = elim (Option-cases (ids_of s w.sources)) [
  | inl e ↦ ground arith
  | inr (ids, e) ↦ ground (arith, collect-ne-action ids w)
]

module _ {W : Type 0} (w : Workflow) (act : Actions W) (Inv : State → W → Type 0)
    (Pre : String → State → W → Type 0) (Crash : W → Type 0) where
  -- What the action of `t` owes, by its outcome.
  abbrev pub Owes : Transition → State → Outcome → W → Type 0
  Owes t s no_action x = Inv t.destination x
  Owes t s (returned v) x = Inv t.destination x
  Owes t s failed x =
      (t.error_transition_id ≡ none → Inv s x)
      × ((e : String) → t.error_transition_id ≡ some e → Pre e s x)
  Owes t s crashed x = Crash x

  pub record Honours : Type 0 where
    pub owes :
        (s : State) (x : W) (ts : List Transition) (id : String) (t : Transition)
        → get_transitions s w ≡ ok ts
        → has_id id ts ≡ true
        → get_transition id w ≡ ok t
        → Pre id s x
        → Owes t s (act x id).0 (act x id).1
    pub automatic :
        (s : State) (x : W) (ts : List Transition) (t : Transition)
        → get_transitions s w ≡ ok ts
        → first_automatic ts ≡ some t
        → Inv s x
        → Pre t.transition_id s x

  -- A call that returns leaves the invariant, and an action that raises has broken its contract, or
  -- is free to.
  pub record Keeps (r : Answer W) : Type 0 where
    pub kept : (b : Bool) → r.1 ≡ ok b → Inv (get_state r.0) r.0.world
    pub raised : r.1 ≡ raise action_error → Crash r.0.world

  then_return-Keeps : (b : Bool) (r : Answer W) → Keeps r → Keeps (then_return b r)
  then_return-Keeps b (m, ok c) h = record {
    kept = λ _ _. h.kept c refl;
    raised = λ e. absurd (cc);
  }
  then_return-Keeps b (m, raise e) h = record {
    kept = λ c e'. absurd (cc);
    raised = λ e'. h.raised e';
  }

  returned-Keeps : (m : Machine W) (b : Bool) → Inv (get_state m) m.world → Keeps (m, ok b)
  returned-Keeps m b h = record { kept = λ _ _. h; raised = λ e. absurd (cc) }

  refused-Keeps :
      (m : Machine W) (e : Error) → (e ≡ action_error → Crash m.world) → Keeps (m, raise e)
  refused-Keeps m e h = record { kept = λ b e'. absurd (cc); raised = λ e'. h (raised-eq e') }
    where
      raised-eq : {a b : Error} → ◌≡◌ {A = Result Error Bool} (raise a) (raise b) → a ≡ b
      raised-eq p = cc

  module _ (honours : Honours) (fire : Fire W)
      (keeps : (id : String) (v : Dict String) (m : Machine W)
        → Pre id (get_state m) m.world
        → Keeps (fire id v m)) where
    fire_first-Keeps :
        (o : Option Transition) (m : Machine W) (ts : List Transition)
        → get_transitions (get_state m) w ≡ ok ts
        → first_automatic ts ≡ o
        → Inv (get_state m) m.world
        → Keeps (fire_first fire o m)
    fire_first-Keeps none m ts a f h = returned-Keeps m true h
    fire_first-Keeps (some t) m ts a f h =
        keeps t.transition_id [] m (honours.automatic (get_state m) m.world ts t a f h)

    pub fire_automatic_from-Keeps :
        (r : Result Error (List Transition)) (m : Machine W)
        → get_transitions (get_state m) w ≡ r
        → Inv (get_state m) m.world
        → Keeps (fire_automatic_from fire r m)
    fire_automatic_from-Keeps (raise e) m a h =
        refused-Keeps m e
          (λ same. absurd (get_transitions-ne-action (get_state m) w (a ∙ ap raise same)))
    fire_automatic_from-Keeps (ok ts) m a h = fire_first-Keeps (first_automatic ts) m ts a refl h

    complete-Keeps :
        (t : Transition) (v : Dict String) (m : Machine W)
        → Inv t.destination m.world
        → Keeps (complete w fire t v m)
    unfolding complete fire_automatic_transitions get_available_transitions set_state get_state
    complete-Keeps t v m h =
        let m1 = set_state t.destination v m in
        then_return-Keeps true (fire_automatic_from fire (get_transitions (get_state m1) w) m1)
          (fire_automatic_from-Keeps (get_transitions (get_state m1) w) m1 refl h)

    recover_by-Keeps :
        (o : Option String) (m : Machine W)
        → (o ≡ none → Inv (get_state m) m.world)
        → ((e : String) → o ≡ some e → Pre e (get_state m) m.world)
        → Keeps (recover_by fire o m)
    unfolding set_inflight
    recover_by-Keeps none m h k =
        returned-Keeps (set_inflight none m) false (rw (state-set_inflight none m) (h refl))
    recover_by-Keeps (some e) m h k =
        then_return-Keeps false (fire e [] m) (keeps e [] m (k e refl))

    after_action-Keeps :
        (t : Transition) (v : Dict String) (o : Outcome) (m : Machine W)
        → Owes t (get_state m) o m.world
        → Keeps (after_action w fire t v o m)
    after_action-Keeps t v no_action m h = complete-Keeps t v m h
    after_action-Keeps t v (returned none) m h = complete-Keeps t v m h
    after_action-Keeps t v (returned (some more)) m h = complete-Keeps t (update v more) m h
    after_action-Keeps t v failed m h = recover_by-Keeps t.error_transition_id m h.0 h.1
    after_action-Keeps t v crashed m h = refused-Keeps m action_error (λ _. h)

    known-Keeps :
        (id : String) (v : Dict String) (r : Result Error Transition) (m : Machine W)
        (ts : List Transition)
        → get_transition id w ≡ r
        → get_transitions (get_state m) w ≡ ok ts
        → has_id id ts ≡ true
        → Pre id (get_state m) m.world
        → Keeps (fire_known w act fire id v r (set_inflight (some id) m))
    unfolding set_inflight get_state
    known-Keeps id v (raise e) m ts c a b h =
        refused-Keeps (set_inflight (some id) m) e
          (λ same. absurd (get_transition-ne-action id w (c ∙ ap raise same)))
    known-Keeps id v (ok t) m ts c a b h =
        let x = act m.world id in
        let m1 = with_world x.1 (set_inflight (some id) m) in
        let same : get_state m1 ≡ get_state m = state-set_inflight (some id) m in
        after_action-Keeps t v x.0 m1 (rw same (honours.owes (get_state m) m.world ts id t a b c h))

    fire_among-Keeps :
        (id : String) (v : Dict String) (r : Result Error (List Transition)) (m : Machine W)
        → get_transitions (get_state m) w ≡ r
        → Pre id (get_state m) m.world
        → Keeps (fire_among w act fire id v r m)
    fire_among-Keeps id v (raise e) m a h =
        refused-Keeps m e
          (λ same. absurd (get_transitions-ne-action (get_state m) w (a ∙ ap raise same)))
    fire_among-Keeps id v (ok ts) m a h = elim (Bool-cases (has_id id ts)) [
      | inl b ↦ rw b (known-Keeps id v (get_transition id w) m ts refl a b h)
      | inr b ↦ rw b (refused-Keeps m invalid_transition (λ e. absurd (cc)))
    ]

  -- A call that starts where the transition's precondition holds leaves the invariant where it
  -- returns.
  pub fire_transition-Keeps :
      Honours
      → (fuel : ℕ) (id : String) (v : Dict String) (m : Machine W) → Pre id (get_state m) m.world
      → Keeps (fire_transition w act fuel id v m)
  unfolding fire_transition get_available_transitions
  fire_transition-Keeps honours zero id v m h = refused-Keeps m out_of_fuel (λ e. absurd (cc))
  fire_transition-Keeps honours (suc fuel) id v m h =
      fire_among-Keeps honours (fire_transition w act fuel) (fire_transition-Keeps honours fuel) id
        v (get_transitions (get_state m) w) m refl h
