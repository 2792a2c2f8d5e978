-- ===== src/Workflow/Total.antt =====
-- juju/lib/statemachine.py: in a workflow whose error and automatic transitions are declared
-- consistently, firing ends, and raises only what an action raises.
use trusted_juju.Prelude.{
  ℕ, zero, suc, ◌<◌, ◌≤◌, String, Bool, true, false, Option, none, some, List, [], ◌∷◌, ◌≡◌, refl,
  sym, ◌∙◌, ap, ok, raise, arith, subst, eq_iff,
}
use trusted_juju.Prelude.Dict.{Dict}
use trusted_juju.Workflow.Defs.{
  Error, action_error, State, Transition, Workflow, get_transition, get_transitions, has_id,
}
use trusted_juju.Workflow.Machine.{
  Outcome, no_action, returned, failed, crashed, Actions, Machine, Answer, Fire, get_state,
  set_state, set_inflight, update, get_available_transitions, first_automatic, then_return,
  fire_first, fire_automatic_from, fire_automatic_transitions, complete, recover_by, after_action,
  with_world, fire_transition,
}
use trusted_juju.Workflow.Paths.{state-set_state, state-set_inflight, state-with_world}

-- After the transition the automatic one, if there is one, is of a lower rank.
abbrev pub Lands : Workflow → (String → ℕ) → ℕ → State → Type 0
Lands w rank n s =
    (ts : List Transition) × (get_transitions s w ≡ ok ts)
    × ((t : Transition) → first_automatic ts ≡ some t → rank t.transition_id < n)

-- Every state that a transition leads to is declared, the error transition of each is declared for
-- the same state, and error and automatic transitions lead to lower ranks.
pub record IsSound (w : Workflow) (rank : String → ℕ) : Type 0 where
  pub declared :
      (s : State) (ts : List Transition) (id : String)
      → get_transitions s w ≡ ok ts
      → has_id id ts ≡ true
      → (t : Transition) × (get_transition id w ≡ ok t)
        × Lands w rank (rank id) t.destination
        × ((e : String)
            → t.error_transition_id ≡ some e
            → (has_id e ts ≡ true) × (rank e < rank id))

-- The call returns, or an action has raised.
abbrev pub Ends : {W : Type 0} → Answer W → Type 0
Ends r = (e : Error) → r.1 ≡ raise e → e ≡ action_error

pub has_id_of_first :
    (ts : List Transition) (t : Transition)
    → first_automatic ts ≡ some t
    → has_id t.transition_id ts ≡ true
unfolding first_automatic
has_id_of_first [] t h = absurd (cc)
has_id_of_first (x ∷ ts) t h =
    ground (arith, eq_iff x.transition_id t.transition_id, has_id_of_first ts t)

then_return-Ends : {W : Type 0} (b : Bool) (r : Answer W) → Ends r → Ends (then_return b r)
then_return-Ends b (m, ok c) h e e' = absurd (cc)
then_return-Ends b (m, raise x) h e e' = h e (ground arith)

module _ {W : Type 0} (w : Workflow) (rank : String → ℕ) (sound : IsSound w rank) (fire : Fire W)
    (n : ℕ)
    (ends : (id : String) (v : Dict String) (m : Machine W) (ts : List Transition)
      → get_transitions (get_state m) w ≡ ok ts
      → has_id id ts ≡ true
      → rank id < n
      → Ends (fire id v m)) where
  fire_first-Ends :
      (o : Option Transition) (m : Machine W) (ts : List Transition)
      → get_transitions (get_state m) w ≡ ok ts
      → first_automatic ts ≡ o
      → ((t : Transition) → o ≡ some t → rank t.transition_id < n)
      → Ends (fire_first fire o m)
  fire_first-Ends none m ts a f low = λ e e'. absurd (cc)
  fire_first-Ends (some t) m ts a f low =
      ends t.transition_id [] m ts a (has_id_of_first ts t f) (low t refl)

  complete-Ends :
      (t : Transition) (v : Dict String) (m : Machine W)
      → Lands w rank n t.destination
      → Ends (complete w fire t v m)
  unfolding complete fire_automatic_transitions get_available_transitions
  complete-Ends t v m (ts, a, low) =
      let m1 = set_state t.destination v m in
      let a1 = ap (λ s. get_transitions s w) (state-set_state t.destination v m) ∙ a in
      then_return-Ends true (fire_automatic_from fire (get_transitions (get_state m1) w) m1) (
        subst (λ r. Ends (fire_automatic_from fire r m1)) (sym a1)
          (fire_first-Ends (first_automatic ts) m1 ts a1 refl low))

  recover_by-Ends :
      (o : Option String) (m : Machine W) (ts : List Transition)
      → get_transitions (get_state m) w ≡ ok ts
      → ((e : String) → o ≡ some e → (has_id e ts ≡ true) × (rank e < n))
      → Ends (recover_by fire o m)
  recover_by-Ends none m ts a low = λ e e'. absurd (cc)
  recover_by-Ends (some id) m ts a low =
      then_return-Ends false (fire id [] m) (ends id [] m ts a (low id refl).0 (low id refl).1)

  after_action-Ends :
      (ts : List Transition) (t : Transition) (v : Dict String) (o : Outcome) (m : Machine W)
      → get_transitions (get_state m) w ≡ ok ts
      → Lands w rank n t.destination
      → ((e : String) → t.error_transition_id ≡ some e → (has_id e ts ≡ true) × (rank e < n))
      → Ends (after_action w fire t v o m)
  after_action-Ends ts t v no_action m a l r = complete-Ends t v m l
  after_action-Ends ts t v (returned none) m a l r = complete-Ends t v m l
  after_action-Ends ts t v (returned (some more)) m a l r = complete-Ends t (update v more) m l
  after_action-Ends ts t v failed m a l r = recover_by-Ends t.error_transition_id m ts a r
  after_action-Ends ts t v crashed m a l r = λ e e'. ground arith

lower :
    (w : Workflow) (rank : String → ℕ) (n k : ℕ) (s : State)
    → n ≤ k
    → Lands w rank n s
    → Lands w rank k s
lower w rank n k s h (ts, a, low) = (ts, a, λ t f. omega (arith, low t f))

-- In a soundly declared workflow, a transition that is available in the current state is fired to
-- the end: with more fuel than its rank the call returns, or raises because an action raised another
-- exception than `TransitionError`.
pub fire_transition-Ends :
    {W : Type 0} (w : Workflow) (rank : String → ℕ) (act : Actions W) (fuel : ℕ) (id : String)
    (v : Dict String) (m : Machine W) (ts : List Transition)
    → IsSound w rank
    → get_available_transitions w m ≡ ok ts
    → has_id id ts ≡ true
    → rank id < fuel
    → Ends (fire_transition w act fuel id v m)
unfolding fire_transition get_available_transitions
fire_transition-Ends w rank act zero id v m ts sound a b h = absurd (omega arith)
fire_transition-Ends w rank act (suc fuel) id v m ts sound a b h =
    let (t, c, lands, errors) = sound.declared (get_state m) ts id a b in
    let m1 = set_inflight (some id) m in
    let same = state-with_world (act m1.world id).1 m1 ∙ state-set_inflight (some id) m in
    let a1 = ap (λ s. get_transitions s w) same ∙ a in
    let body =
      after_action-Ends w rank sound (fire_transition w act fuel) fuel
        (λ id' v' m' ts' a' b' h'.
          fire_transition-Ends w rank act fuel id' v' m' ts' sound a' b' h')
        ts t v (act m1.world id).0 (with_world (act m1.world id).1 m1) a1
        (lower w rank (rank id) fuel t.destination (omega arith) lands)
        (λ e f. let (x, y) = errors e f in (x, omega arith)) in
    rw a (rw b (rw c body))
