-- ===== src/Workflow/Interrupted.antt =====
-- juju/lib/statemachine.py: an action that raises or a process that dies in the middle of a
-- transition, and what `synchronize` makes of it.
use trusted_juju.Prelude.{
  ℕ, suc, String, true, false, Option, none, some, List, [], ◌≡◌, ◌≢◌, refl, sym, ◌∙◌, ok, raise,
  arith, subst,
}
use trusted_juju.Prelude.Dict.{Dict}
use trusted_juju.Workflow.Defs.{action_error, Transition, Workflow, get_transition, has_id}
use trusted_juju.Workflow.Machine.{
  Outcome, no_action, returned, failed, crashed, Actions, Machine, Answer, Fire, get_state,
  get_inflight, set_inflight, update, get_available_transitions, first_automatic, fire_first,
  fire_automatic_transitions, then_return, recover_by, after_action, with_world, fire_transition,
  synchronize,
}
use trusted_juju.Workflow.Paths.{
  Route, complete-Moves, fire_transition-Moves, state-set_inflight, inflight-set_inflight,
  state-with_world,
}

inflight-with_world :
    {W : Type 0} (x : W) (m : Machine W) → get_inflight (with_world x m) ≡ get_inflight m
unfolding get_inflight
inflight-with_world x m = refl

module _ {W : Type 0} (w : Workflow) (act : Actions W) (fuel : ℕ) (id : String) (v : Dict String)
    (m : Machine W) (ts : List Transition) (t : Transition)
    (available : get_available_transitions w m ≡ ok ts) (among : has_id id ts ≡ true)
    (declared : get_transition id w ≡ ok t) where
  -- The machine that the action starts on.
  fire-after_action :
      fire_transition w act (suc fuel) id v m
      ≡ after_action w
          (fire_transition w act fuel)
          t
          v
          (act m.world id).0
          (with_world (act m.world id).1 (set_inflight (some id) m))
  unfolding fire_transition set_inflight
  fire-after_action = rw (available, among, declared) refl

pub synchronize-idle :
    {W : Type 0} (w : Workflow) (act : Actions W) (fuel : ℕ) (m : Machine W) (ts : List Transition)
    → get_inflight m ≡ none
    → get_available_transitions w m ≡ ok ts
    → synchronize w act fuel m ≡ fire_first (fire_transition w act fuel) (first_automatic ts) m
unfolding synchronize fire_automatic_transitions
synchronize-idle w act fuel m ts h a = ground arith

pub synchronize-inflight :
    {W : Type 0} (w : Workflow) (act : Actions W) (fuel : ℕ) (id : String) (m : Machine W)
    → get_inflight m ≡ some id
    → synchronize w act fuel m ≡ fire_transition w act fuel id [] m
unfolding synchronize
synchronize-inflight w act fuel id m h = ground arith

-- Where the action of a transition dies, the stored state stays, the transition stays recorded as in
-- flight, and the next `synchronize` fires it again (without the state variables of the first call).
pub synchronize_after_crash :
    {W : Type 0} (w : Workflow) (act : Actions W) (fuel : ℕ) (id : String) (v : Dict String)
    (m : Machine W) (ts : List Transition) (t : Transition)
    → get_available_transitions w m ≡ ok ts
    → has_id id ts ≡ true
    → get_transition id w ≡ ok t
    → (act m.world id).0 ≡ crashed
    → (m' : Machine W) × (fire_transition w act (suc fuel) id v m ≡ (m', raise action_error))
      × (get_state m' ≡ get_state m)
      × (get_inflight m' ≡ some id)
      × ((act' : Actions W) (fuel' : ℕ)
          → synchronize w act' fuel' m' ≡ fire_transition w act' fuel' id [] m')
synchronize_after_crash w act fuel id v m ts t a b c dies =
    let m' = with_world (act m.world id).1 (set_inflight (some id) m) in
    let inflight =
      inflight-with_world (act m.world id).1 (set_inflight (some id) m)
      ∙ inflight-set_inflight (some id) m in
    (
      m',
      fire-after_action w act fuel id v m ts t a b c ∙ rw dies refl,
      state-with_world (act m.world id).1 (set_inflight (some id) m)
          ∙ state-set_inflight (some id) m,
      inflight,
      λ act' fuel'. synchronize-inflight w act' fuel' id m' inflight,
    )

not_true : {W : Type 0} (r : Answer W) → (then_return false r).1 ≢ ok true
not_true (m, ok b) h = cc
not_true (m, raise e) h = cc

recover_by-ne-true :
    {W : Type 0} (fire : Fire W) (o : Option String) (m : Machine W)
    → (recover_by fire o m).1 ≢ ok true
recover_by-ne-true fire none m h = cc
recover_by-ne-true fire (some id) m h = not_true (fire id [] m) h

module _ {W : Type 0} (w : Workflow) (act : Actions W) (fuel : ℕ) (t : Transition)
    (m : Machine W) where
  through :
      (v : Dict String) (o : Outcome)
      → (after_action w (fire_transition w act fuel) t v o m).1 ≡ ok true
      → Route w t.destination (get_state (after_action w (fire_transition w act fuel) t v o m).0)
  through v no_action h =
      (complete-Moves w (fire_transition w act fuel) (fire_transition-Moves w act fuel) t v m).path
  through v (returned none) h =
      (complete-Moves w (fire_transition w act fuel) (fire_transition-Moves w act fuel) t v m).path
  through v (returned (some more)) h =
      (complete-Moves w (fire_transition w act fuel) (fire_transition-Moves w act fuel) t
        (update v more) m).path
  through v failed h =
      absurd (recover_by-ne-true (fire_transition w act fuel) t.error_transition_id m h)
  through v crashed h = absurd (cc)

-- Where firing an available transition returns `True`, the state has reached the transition's
-- destination, and is there or where automatic transitions lead from there.
pub fire_transition-eq-true :
    {W : Type 0} (w : Workflow) (act : Actions W) (fuel : ℕ) (id : String) (v : Dict String)
    (m : Machine W) (ts : List Transition) (t : Transition)
    → get_available_transitions w m ≡ ok ts
    → has_id id ts ≡ true
    → get_transition id w ≡ ok t
    → (fire_transition w act (suc fuel) id v m).1 ≡ ok true
    → Route w t.destination (get_state (fire_transition w act (suc fuel) id v m).0)
fire_transition-eq-true {W} w act fuel id v m ts t a b c h =
    let e = fire-after_action w act fuel id v m ts t a b c in
    subst (λ (r : Answer W). Route w t.destination (get_state r.0)) (sym e)
      (through w act fuel t (with_world (act m.world id).1 (set_inflight (some id) m)) v
        (act m.world id).0 (subst (λ (r : Answer W). r.1 ≡ ok true) e h))
