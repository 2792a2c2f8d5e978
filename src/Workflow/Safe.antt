-- ===== src/Workflow/Safe.antt =====
-- juju/lib/statemachine.py: in a soundly declared workflow whose actions honour their contracts, a call
-- returns with the invariant, or an action has raised what it may.
use trusted_juju.Prelude.{
  ℕ, ◌<◌, String, true, Option, none, some, List, [], ◌≡◌, refl, ap, ok, raise, Option-cases, inl,
  inr,
}
use trusted_juju.Prelude.Dict.{Dict}
use trusted_juju.Workflow.Defs.{action_error, State, Transition, Workflow, has_id}
use trusted_juju.Workflow.Machine.{
  Actions, Machine, Answer, get_state, get_inflight, get_available_transitions, first_automatic,
  fire_first, fire_transition, synchronize,
}
use trusted_juju.Workflow.Interrupted.{synchronize-idle, synchronize-inflight}
use trusted_juju.Workflow.Total.{IsSound, Ends, has_id_of_first, fire_transition-Ends}
use trusted_juju.Workflow.Contracts.{Honours, Keeps, fire_transition-Keeps}

module _ {W : Type 0} (Inv : State → W → Type 0) (Crash : W → Type 0) where
  abbrev pub Safe : Answer W → Type 0
  Safe (m, ok b) = Inv (get_state m) m.world
  Safe (m, raise e) = (e ≡ action_error) × Crash m.world

module _ {W : Type 0} (w : Workflow) (rank : String → ℕ) (sound : IsSound w rank) (act : Actions W)
    (Inv : State → W → Type 0) (Pre : String → State → W → Type 0) (Crash : W → Type 0)
    (honours : Honours w act Inv Pre Crash) where
  Safe-of : (r : Answer W) → Keeps w act Inv Pre Crash r → Ends r → Safe Inv Crash r
  Safe-of (m, ok b) keeps ends = keeps.kept b refl
  Safe-of (m, raise e) keeps ends = (ends e refl, keeps.raised (ap raise (ends e refl)))

  pub fire_transition-Safe :
      (fuel : ℕ) (id : String) (v : Dict String) (m : Machine W) (ts : List Transition)
      → get_available_transitions w m ≡ ok ts
      → has_id id ts ≡ true
      → rank id < fuel
      → Pre id (get_state m) m.world
      → Safe Inv Crash (fire_transition w act fuel id v m)
  fire_transition-Safe fuel id v m ts a b low h =
      Safe-of (fire_transition w act fuel id v m)
        (fire_transition-Keeps w act Inv Pre Crash honours fuel id v m h)
        (fire_transition-Ends w rank act fuel id v m ts sound a b low)

  fire_first-Safe :
      (fuel : ℕ) (o : Option Transition) (m : Machine W) (ts : List Transition)
      → get_available_transitions w m ≡ ok ts
      → first_automatic ts ≡ o
      → ((id : String) → rank id < fuel)
      → Inv (get_state m) m.world
      → Safe Inv Crash (fire_first (fire_transition w act fuel) o m)
  unfolding get_available_transitions
  fire_first-Safe fuel none m ts a f low h = h
  fire_first-Safe fuel (some t) m ts a f low h =
      fire_transition-Safe fuel t.transition_id [] m ts a (has_id_of_first ts t f)
        (low t.transition_id) (honours.automatic (get_state m) m.world ts t a f h)

  -- What was in flight is fired where its precondition holds.
  pub synchronize-Safe :
      (fuel : ℕ) (m : Machine W) (ts : List Transition)
      → get_available_transitions w m ≡ ok ts
      → ((id : String) → rank id < fuel)
      → (get_inflight m ≡ none → Inv (get_state m) m.world)
      → ((id : String)
          → get_inflight m ≡ some id
          → (has_id id ts ≡ true) × Pre id (get_state m) m.world)
      → Safe Inv Crash (synchronize w act fuel m)
  synchronize-Safe fuel m ts a low idle flight = elim (Option-cases (get_inflight m)) [
    | inl e ↦
        rw (synchronize-idle w act fuel m ts e a)
          (fire_first-Safe fuel (first_automatic ts) m ts a refl low (idle e))
    | inr (id, e) ↦
        rw (synchronize-inflight w act fuel id m e)
          (fire_transition-Safe fuel id [] m ts a (flight id e).0 (low id) (flight id e).1)
  ]
