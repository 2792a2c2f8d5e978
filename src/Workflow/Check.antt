-- ===== src/Workflow/Check.antt =====
-- A test by which a workflow of juju/lib/statemachine.py is seen to be declared consistently.
use trusted_juju.Prelude.{
  ℕ, ◌<◌, String, Bool, true, false, ◌&&◌, Option, none, some, List, [], ◌∷◌, ◌≡◌, refl, ap, ok,
  raise, arith, Bool-cases, inl, inr, ltb, ltb→lt, str_eq, eq_iff, Result-cases,
}
use trusted_juju.Workflow.Defs.{
  State, Transition, Workflow, get_transition, get_transitions, has_id, ids_of, state_eq,
}
use trusted_juju.Workflow.Machine.{first_automatic}
use trusted_juju.Workflow.Total.{IsSound, Lands}

abbrev lands : Workflow → (String → ℕ) → ℕ → State → Bool
lands w rank n s = elim (get_transitions s w) [
  | raise e ↦ false
  | ok ts ↦ elim (first_automatic ts) [ none ↦ true | some t ↦ ltb (rank t.transition_id) n ]
]

abbrev recovers : (String → ℕ) → ℕ → List Transition → Option String → Bool
recovers rank n ts none = true
recovers rank n ts (some e) = has_id e ts && ltb (rank e) n

-- One transition of a state, among all of the state.
unfoldable pub is_sound_at : Workflow → (String → ℕ) → List Transition → Transition → Bool
is_sound_at w rank ts t = elim (get_transition t.transition_id w) [
  | raise e ↦ false
  | ok x ↦
      lands w rank (rank t.transition_id) x.destination
      && recovers rank (rank t.transition_id) ts x.error_transition_id
]

abbrev pub all {ℓ} : {A : Type ℓ} → (A → Bool) → List A → Bool
all p [] = true
all p (x ∷ xs) = p x && all p xs

unfoldable pub is_sound_in : Workflow → (String → ℕ) → State → Bool
unfolding is_sound_at
is_sound_in w rank s = elim (get_transitions s w) [
  | raise e ↦ false
  | ok ts ↦ all (is_sound_at w rank ts) ts
]

unfoldable pub is_sound : Workflow → (String → ℕ) → Bool
unfolding is_sound_in
is_sound w rank = all (λ (row : State × List String). is_sound_in w rank row.0) w.sources

pub all-has_id :
    (p : Transition → Bool) (ts : List Transition) (id : String)
    → all p ts ≡ true
    → has_id id ts ≡ true
    → (t : Transition) × (t.transition_id ≡ id) × (p t ≡ true)
all-has_id p [] id h k = absurd (cc)
all-has_id p (t ∷ ts) id h k = elim (Bool-cases (str_eq t.transition_id id)) [
  | inl e ↦ (t, (eq_iff t.transition_id id).0 e, ground arith)
  | inr e ↦ all-has_id p ts id (ground arith) (ground arith)
]

pub state_eq_sound : (a b : State) → state_eq a b ≡ true → a ≡ b
state_eq_sound none none h = refl
state_eq_sound none (some b) h = cc
state_eq_sound (some a) none h = cc
state_eq_sound (some a) (some b) h = ap some ((eq_iff a b).0 h)

pub all-sources :
    (p : State → Bool) (sources : List (State × List String)) (s : State) (ids : List String)
    → all (λ (row : State × List String). p row.0) sources ≡ true
    → ids_of s sources ≡ some ids
    → p s ≡ true
unfolding ids_of
all-sources p [] s ids h k = absurd (cc)
all-sources p ((u, us) ∷ sources) s ids h k = elim (Bool-cases (state_eq u s)) [
  | inl e ↦ ground (arith, state_eq_sound u s e)
  | inr e ↦ all-sources p sources s ids (ground arith) (ground arith)
]

pub get_transitions-ids :
    (s : State) (w : Workflow) (ts : List Transition)
    → get_transitions s w ≡ ok ts
    → (ids : List String) × (ids_of s w.sources ≡ some ids)
unfolding get_transitions
get_transitions-ids s w ts h = ground arith

at_cases :
    (w : Workflow) (rank : String → ℕ) (ts : List Transition) (t : Transition)
    → is_sound_at w rank ts t ≡ true
    → (x : Transition) × (get_transition t.transition_id w ≡ ok x)
      × (lands w rank (rank t.transition_id) x.destination ≡ true)
      × (recovers rank (rank t.transition_id) ts x.error_transition_id ≡ true)
unfolding is_sound_at
at_cases w rank ts t h = ground arith

lands_sound :
    (w : Workflow) (rank : String → ℕ) (n : ℕ) (s : State)
    → lands w rank n s ≡ true
    → Lands w rank n s
lands_sound w rank n s h = elim (Result-cases (get_transitions s w)) [
  | inl (ts, a) ↦ (ts, a, λ t f. ltb→lt (rank t.transition_id) n (low ts t a f))
  | inr (e, a) ↦ absurd (ground arith)
]
  where
    low :
        (ts : List Transition) (t : Transition)
        → get_transitions s w ≡ ok ts
        → first_automatic ts ≡ some t
        → ltb (rank t.transition_id) n ≡ true
    low ts t a f = ground arith

recovers_sound :
    (rank : String → ℕ) (n : ℕ) (ts : List Transition) (o : Option String) (e : String)
    → recovers rank n ts o ≡ true
    → o ≡ some e
    → (has_id e ts ≡ true) × (rank e < n)
recovers_sound rank n ts none e h k = absurd (cc)
recovers_sound rank n ts (some x) e h k =
    let same : x ≡ e = ground arith in rw (← same) (ground arith, ltb→lt (rank x) n (ground arith))

in_cases :
    (w : Workflow) (rank : String → ℕ) (s : State) (ts : List Transition)
    → is_sound_in w rank s ≡ true
    → get_transitions s w ≡ ok ts
    → all (is_sound_at w rank ts) ts ≡ true
unfolding is_sound_in
in_cases w rank s ts h a = ground arith

-- The test is sound.
pub is_sound→IsSound : (w : Workflow) (rank : String → ℕ) → is_sound w rank ≡ true → IsSound w rank
unfolding is_sound
is_sound→IsSound w rank h = record {
  declared = λ s ts id a b.
      let (ids, found) = get_transitions-ids s w ts a in
      let here =
        in_cases w rank s ts (all-sources (is_sound_in w rank) w.sources s ids h found) a in
      let (t, e, good) = all-has_id (is_sound_at w rank ts) ts id here b in
      let (x, c, l, r) = at_cases w rank ts t good in
      rw (← e) (
        x,
        c,
        lands_sound w rank (rank t.transition_id) x.destination l,
        λ e' k. recovers_sound rank (rank t.transition_id) ts x.error_transition_id e' r k,
      );
}
