-- ===== src/Workflow/Paths.antt =====
-- juju/lib/statemachine.py: the state only moves along the transitions of the workflow, and a call
-- that returns leaves no transition in flight.
use trusted_juju.Prelude.{
  ℕ, zero, suc, String, Bool, true, false, Option, none, some, List, [], ◌≡◌, refl, ◌∙◌, Result, ok,
  raise, arith, Bool-cases, Option-cases, inl, inr, subst,
}
use trusted_juju.Prelude.Dict.{Dict}
use trusted_juju.Workflow.Defs.{
  Error, State, Transition, Workflow, get_transition, get_transitions, has_id,
}
use trusted_juju.Workflow.Machine.{
  Outcome, no_action, returned, failed, crashed, Actions, Machine, Answer, Fire, get_state,
  get_inflight, set_state, set_inflight, update, get_available_transitions, first_automatic,
  then_return, fire_first, fire_automatic_from, fire_automatic_transitions, complete, recover_by,
  after_action, with_world, fire_known, fire_among, fire_transition,
}

-- From one state to another along available transitions.
pub data Route (w : Workflow) : State → State → Type 0 where
  stay : {s : State} → Route w s s
  go :
      {s u : State} (ts : List Transition) (id : String) (t : Transition)
      → get_transitions s w ≡ ok ts
      → has_id id ts ≡ true
      → get_transition id w ≡ ok t
      → Route w t.destination u
      → Route w s u

join : {w : Workflow} {s u v : State} → Route w s u → Route w u v → Route w s v
join stay q = q
join (go ts id t a b c p) q = go ts id t a b c (join p q)

-- What holds of a call that starts in `s`.
pub record Moves {W : Type 0} (w : Workflow) (s : State) (r : Answer W) : Type 0 where
  pub path : Route w s (get_state r.0)
  pub settled : (b : Bool) → r.1 ≡ ok b → get_inflight r.0 ≡ none

then_return-Moves :
    {W : Type 0} {w : Workflow} {s : State} (b : Bool) (r : Answer W)
    → Moves w s r
    → Moves w s (then_return b r)
then_return-Moves b (m, ok c) h = record { path = h.path; settled = λ _ _. h.settled c refl }
then_return-Moves b (m, raise e) h = record { path = h.path; settled = λ c e'. absurd (cc) }

pub state-set_state :
    {W : Type 0} (s : State) (v : Dict String) (m : Machine W) → get_state (set_state s v m) ≡ s
unfolding get_state set_state
state-set_state s v m = refl

inflight-set_state :
    {W : Type 0} (s : State) (v : Dict String) (m : Machine W)
    → get_inflight (set_state s v m) ≡ none
unfolding get_inflight set_state
inflight-set_state s v m = refl

pub state-set_inflight :
    {W : Type 0} (id : Option String) (m : Machine W) → get_state (set_inflight id m) ≡ get_state m
unfolding get_state set_inflight
state-set_inflight id m = elim (Option-cases (m.stored)) [
  | inl e ↦ ground arith
  | inr (d, e) ↦ ground arith
]

pub inflight-set_inflight :
    {W : Type 0} (id : Option String) (m : Machine W) → get_inflight (set_inflight id m) ≡ id
unfolding get_inflight set_inflight
inflight-set_inflight id m = refl

pub state-with_world :
    {W : Type 0} (x : W) (m : Machine W) → get_state (with_world x m) ≡ get_state m
unfolding get_state
state-with_world x m = refl

along :
    {W : Type 0} {w : Workflow} {r : Answer W} (ts : List Transition) (id : String) (t : Transition)
    (m : Machine W)
    → get_transitions (get_state m) w ≡ ok ts
    → has_id id ts ≡ true
    → get_transition id w ≡ ok t
    → Moves w t.destination r
    → Moves w (get_state m) r
along ts id t m a b c h = record { path = go ts id t a b c h.path; settled = h.settled }

module _ {W : Type 0} (w : Workflow) (fire : Fire W)
    (moves : (id : String) (v : Dict String) (m : Machine W)
      → Moves w (get_state m) (fire id v m)) where
  fire_first-Moves :
      (o : Option Transition) (m : Machine W)
      → get_inflight m ≡ none
      → Moves w (get_state m) (fire_first fire o m)
  fire_first-Moves none m h = record { path = stay; settled = λ _ _. h }
  fire_first-Moves (some t) m h = moves t.transition_id [] m

  fire_automatic_from-Moves :
      (r : Result Error (List Transition)) (m : Machine W)
      → get_inflight m ≡ none
      → Moves w (get_state m) (fire_automatic_from fire r m)
  fire_automatic_from-Moves (raise e) m h = record { path = stay; settled = λ b e'. h }
  fire_automatic_from-Moves (ok ts) m h = fire_first-Moves (first_automatic ts) m h

  pub complete-Moves :
      (t : Transition) (v : Dict String) (m : Machine W)
      → Moves w t.destination (complete w fire t v m)
  unfolding complete fire_automatic_transitions
  complete-Moves t v m =
      let m1 = set_state t.destination v m in
      then_return-Moves true (fire_automatic_from fire (get_available_transitions w m1) m1) (
        subst (λ s. Moves w s (fire_automatic_from fire (get_available_transitions w m1) m1))
          (state-set_state t.destination v m)
          (fire_automatic_from-Moves (get_available_transitions w m1) m1
            (inflight-set_state t.destination v m)))

  recover_by-Moves :
      (o : Option String) (m : Machine W) → Moves w (get_state m) (recover_by fire o m)
  recover_by-Moves none m = record {
    path = rw (state-set_inflight none m) stay;
    settled = λ _ _. inflight-set_inflight none m;
  }
  recover_by-Moves (some id) m = then_return-Moves false (fire id [] m) (moves id [] m)

  after_action-Moves :
      (ts : List Transition) (id : String) (t : Transition) (v : Dict String) (o : Outcome)
      (m : Machine W)
      → get_transitions (get_state m) w ≡ ok ts
      → has_id id ts ≡ true
      → get_transition id w ≡ ok t
      → Moves w (get_state m) (after_action w fire t v o m)
  after_action-Moves ts id t v no_action m a b c = along ts id t m a b c (complete-Moves t v m)
  after_action-Moves ts id t v (returned none) m a b c =
      along ts id t m a b c (complete-Moves t v m)
  after_action-Moves ts id t v (returned (some more)) m a b c =
      along ts id t m a b c (complete-Moves t (update v more) m)
  after_action-Moves ts id t v failed m a b c = recover_by-Moves t.error_transition_id m
  after_action-Moves ts id t v crashed m a b c = record {
    path = stay;
    settled = λ b' e. absurd (cc);
  }

  known :
      (act : Actions W) (id : String) (v : Dict String) (r : Result Error Transition)
      (m : Machine W) (ts : List Transition)
      → get_transition id w ≡ r
      → get_transitions (get_state m) w ≡ ok ts
      → has_id id ts ≡ true
      → Moves w (get_state m) (fire_known w act fire id v r (set_inflight (some id) m))
  known act id v (raise e) m ts c a b = record {
    path = rw (state-set_inflight (some id) m) stay;
    settled = λ b' e'. absurd (cc);
  }
  known act id v (ok t) m ts c a b =
      let m1 = set_inflight (some id) m in
      let same = state-with_world (act m1.world id).1 m1 ∙ state-set_inflight (some id) m in
      subst
        (λ s.
          Moves w s
            (after_action w fire t v (act m1.world id).0 (with_world (act m1.world id).1 m1)))
        same
        (after_action-Moves ts id t v (act m1.world id).0 (with_world (act m1.world id).1 m1)
          (rw same a) b c)

  fire_among-Moves :
      (act : Actions W) (id : String) (v : Dict String) (r : Result Error (List Transition))
      (m : Machine W)
      → get_transitions (get_state m) w ≡ r
      → Moves w (get_state m) (fire_among w act fire id v r m)
  fire_among-Moves act id v (raise e) m a = record { path = stay; settled = λ b e'. absurd (cc) }
  fire_among-Moves act id v (ok ts) m a = elim (Bool-cases (has_id id ts)) [
    | inl b ↦ rw b (known act id v (get_transition id w) m ts refl a b)
    | inr b ↦ rw b (record { path = stay; settled = λ b' e. absurd (cc) })
  ]

-- Firing a transition, whatever the actions do and wherever it stops, leaves the stored state at one
-- that the transitions of the workflow lead to from the old state; where it returns, no transition
-- is recorded as in flight.
pub fire_transition-Moves :
    {W : Type 0} (w : Workflow) (act : Actions W) (fuel : ℕ) (id : String) (v : Dict String)
    (m : Machine W)
    → Moves w (get_state m) (fire_transition w act fuel id v m)
unfolding fire_transition get_available_transitions
fire_transition-Moves w act zero id v m = record { path = stay; settled = λ b e. absurd (cc) }
fire_transition-Moves w act (suc fuel) id v m =
    fire_among-Moves w (fire_transition w act fuel) (fire_transition-Moves w act fuel) act id v
      (get_transitions (get_state m) w) m refl
