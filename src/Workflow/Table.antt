-- ===== src/Workflow/Table.antt =====
-- juju/lib/statemachine.py: the contracts of a workflow's actions, transition by transition.
use trusted_juju.Prelude.{
  String, Bool, true, false, not, ◌&&◌, ◌||◌, some, List, [], ◌∷◌, ◌≡◌, sym, ◌∙◌, ap, Result, ok,
  raise, arith, Bool-cases, inl, inr, subst, All, str_eq, eq_iff, Result-cases,
}
use trusted_juju.Prelude.Dict.{Dict, lookup}
use trusted_juju.Workflow.Defs.{
  State, Transition, Workflow, get_transition, get_transitions, has_id, state_eq,
}
use trusted_juju.Workflow.Machine.{Actions, first_automatic}
use trusted_juju.Workflow.Check.{all, all-has_id, all-sources, get_transitions-ids, state_eq_sound}
use trusted_juju.Workflow.Contracts.{Owes, Honours}

lookup-All {ℓ} :
    {V : Type 0} (P : String → V → Type ℓ) (d : Dict V) (k : String) (v : V)
    → All (λ (row : String × V). P row.0 row.1) d
    → lookup k d ≡ some v
    → P k v
unfolding lookup
lookup-All P [] k v h e = absurd (cc)
lookup-All P ((j, u) ∷ d) k v (h, more) e = elim (Bool-cases (str_eq j k)) [
  | inl same ↦
      let value : u ≡ v = ground arith in
      subst (λ x. P k x) value (subst (λ x. P x u) ((eq_iff j k).0 same) h)
  | inr apart ↦ lookup-All P d k v more (rw apart at e)
]

-- The transition that is found by the id starts in the state, and is automatic if this one is.
abbrev starts_at : Workflow → State → Transition → Bool
starts_at w s t = elim (get_transition t.transition_id w) [
  | raise e ↦ false
  | ok u ↦ state_eq u.source s && (not t.automatic || u.automatic)
]

abbrev starts_in : Workflow → State → Bool
starts_in w s = elim (get_transitions s w) [ raise e ↦ false | ok ts ↦ all (starts_at w s) ts ]

-- Each state lists transitions that start there.
unfoldable pub is_listed : Workflow → Bool
is_listed w = all (λ (row : State × List String). starts_in w row.0) w.sources

listed_in :
    (w : Workflow) (s : State) (ts : List Transition)
    → is_listed w ≡ true
    → get_transitions s w ≡ ok ts
    → all (starts_at w s) ts ≡ true
unfolding is_listed
listed_in w s ts h a =
    let (ids, found) = get_transitions-ids s w ts a in
    subst
      (λ (r : Result _ (List Transition)).
        elim r [ raise e ↦ false | ok us ↦ all (starts_at w s) us ] ≡ true)
      a (all-sources (starts_in w) w.sources s ids h found)

starts_at-eq :
    (w : Workflow) (s : State) (t u : Transition)
    → starts_at w s t ≡ true
    → get_transition t.transition_id w ≡ ok u
    → (u.source ≡ s) × (t.automatic ≡ true → u.automatic ≡ true)
starts_at-eq w s t u h e = ground (arith, state_eq_sound u.source s)

first-All :
    (p : Transition → Bool) (ts : List Transition) (t : Transition)
    → all p ts ≡ true
    → first_automatic ts ≡ some t
    → (p t ≡ true) × (t.automatic ≡ true)
unfolding first_automatic
first-All p [] t h e = absurd (cc)
first-All p (u ∷ ts) t h e = elim (Bool-cases u.automatic) [
  | inl auto ↦ ground arith
  | inr plain ↦ ground (arith, first-All p ts t)
]

found :
    (w : Workflow) (id : String) (t : Transition)
    → get_transition id w ≡ ok t
    → lookup id w.transitions ≡ some t
unfolding get_transition
found w id t h = ground arith

listed-found :
    (w : Workflow) (s : State) (t : Transition)
    → starts_at w s t ≡ true
    → (u : Transition) × (get_transition t.transition_id w ≡ ok u)
listed-found w s t h = elim (Result-cases (get_transition t.transition_id w)) [
  | inl (u, e) ↦ (u, e)
  | inr (x, e) ↦ absurd (ground arith)
]

-- A transition that a state lists starts there.
pub listed-source :
    (w : Workflow) (s : State) (id : String) (ts : List Transition) (t : Transition)
    → is_listed w ≡ true
    → get_transitions s w ≡ ok ts
    → has_id id ts ≡ true
    → get_transition id w ≡ ok t
    → t.source ≡ s
listed-source w s id ts t listed a b c =
    let (t', same, starts) = all-has_id (starts_at w s) ts id (listed_in w s ts listed a) b in
    (starts_at-eq w s t' t starts (ap (λ i. get_transition i w) same ∙ c)).0

module _ {W : Type 0} (w : Workflow) (act : Actions W) (Inv : State → W → Type 0)
    (Pre : String → State → W → Type 0) (Crash : W → Type 0) where
  -- What one entry of the workflow's table owes.
  pub record Row (id : String) (t : Transition) : Type 0 where
    pub owes :
        (x : W) → Pre id t.source x → Owes w act Inv Pre Crash t t.source (act x id).0 (act x id).1
    pub automatic : t.automatic ≡ true → (x : W) → Inv t.source x → Pre id t.source x

  pub table-Honours :
      is_listed w ≡ true
      → All (λ (row : String × Transition). Row row.0 row.1) w.transitions
      → Honours w act Inv Pre Crash
  table-Honours listed rows = record {
    owes = λ s x ts id t a b c pre.
        let from = listed-source w s id ts t listed a b c in
        let row = lookup-All Row w.transitions id t rows (found w id t c) in
        subst (λ u. Owes w act Inv Pre Crash t u (act x id).0 (act x id).1) from
          (row.owes x (subst (λ u. Pre id u x) (sym from) pre));
    automatic = λ s x ts t a f h.
        let (starts, auto) = first-All (starts_at w s) ts t (listed_in w s ts listed a) f in
        let (u, c) = listed-found w s t starts in
        let (from, autos) = starts_at-eq w s t u starts c in
        let row =
          lookup-All Row w.transitions t.transition_id u rows (found w t.transition_id u c) in
        subst (λ v. Pre t.transition_id v x) from
          (row.automatic (autos auto) x (subst (λ v. Inv v x) (sym from) h));
  }

-- Rows one after the other.
infixr 5 ◌⨾◌
pub ◌⨾◌ {ℓ κ} : {A : Type ℓ} {B : Type κ} → A → B → A × B
a ⨾ b = (a, b)
