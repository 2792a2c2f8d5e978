-- ===== src/Workflow/UnitLaws.antt =====
-- juju/unit/workflow.py: what holds of the workflows of units and unit relations.
use trusted_juju.Prelude.{
  ℕ, suc, ◌≤◌, ◌<◌, String, Bool, true, false, not, ◌&&◌, Option, none, some, List, [], ◌∷◌, ◌≡◌,
  ◌↔◌, refl, sym, Result, ok, raise, arith, inl, inr, Bool-cases, str_eq, eq_iff, if◌then◌else◌,
  length, ap, subst, both_of_&&,
}
use trusted_juju.Prelude.Dict.{Dict, lookup, insert}
use trusted_juju.Workflow.Defs.{
  Error, action_error, invalid_transition, State, Transition, Workflow, get_transitions, has_id,
}
use trusted_juju.Workflow.Machine.{
  Actions, Machine, get_state, get_available_transitions, fire_transition, fire_transition_alias,
  with_alias, fire_only, fire_alias_among, alias_is, first_automatic,
}
use trusted_juju.Workflow.Unit.{unit_workflow, relation_workflow}
use trusted_juju.Workflow.Check.{is_sound, is_sound→IsSound, all, all-sources, get_transitions-ids}
use trusted_juju.Workflow.Total.{IsSound, Ends, fire_transition-Ends}

-- Error transitions rank lowest, and the transitions into "installed", which has an automatic
-- transition, rank highest.
abbrev pub unit_rank : String → ℕ
unit_rank id =
    if str_eq id "install"
    then 3
    else if str_eq id "retry_install"
    then 3
    else if str_eq id "retry_install_hook"
    then 3
    else if str_eq id "error_install"
    then 1
    else if str_eq id "error_start"
    then 1
    else if str_eq id "error_stop"
    then 1
    else if str_eq id "upgrade_charm_error"
    then 1
    else if str_eq id "retry_upgrade_charm_error"
    then 1
    else if str_eq id "error_configure"
    then 1
    else if str_eq id "error_retry_configure"
    then 1
    else 2

unit_is_sound : is_sound unit_workflow unit_rank ≡ true
unfolding is_sound unit_workflow get_transitions first_automatic lookup insert
unit_is_sound = refl

relation_is_sound : is_sound relation_workflow (λ _. 0) ≡ true
unfolding is_sound relation_workflow get_transitions first_automatic lookup insert
relation_is_sound = refl

pub relation-IsSound : IsSound relation_workflow (λ _. 0)
relation-IsSound = is_sound→IsSound relation_workflow (λ _. 0) relation_is_sound

pub unit-IsSound : IsSound unit_workflow unit_rank
unit-IsSound = is_sound→IsSound unit_workflow unit_rank unit_is_sound

pub unit_rank-lt : (id : String) → unit_rank id < 4
unit_rank-lt id = ground arith

-- A transition of a service unit that is available in the unit's state runs to its end, the error
-- and automatic transitions after it included, within four nested calls: it returns, or raises
-- because an action raised another exception than `TransitionError`.
pub unit_workflow-Ends :
    {W : Type 0} (act : Actions W) (fuel : ℕ) (id : String) (v : Dict String) (m : Machine W)
    (ts : List Transition)
    → get_available_transitions unit_workflow m ≡ ok ts
    → has_id id ts ≡ true
    → Ends (fire_transition unit_workflow act (suc (suc (suc (suc fuel)))) id v m)
unit_workflow-Ends act fuel id v m ts a b =
    fire_transition-Ends unit_workflow unit_rank act (suc (suc (suc (suc fuel)))) id v m ts
      unit-IsSound a b (omega (arith, unit_rank-lt id))

-- A transition of a unit relation that is available in the relation's state runs to its end with no
-- nested call: it returns, or raises because an action raised another exception than
-- `TransitionError`.
pub relation_workflow-Ends :
    {W : Type 0} (act : Actions W) (fuel : ℕ) (id : String) (v : Dict String) (m : Machine W)
    (ts : List Transition)
    → get_available_transitions relation_workflow m ≡ ok ts
    → has_id id ts ≡ true
    → Ends (fire_transition relation_workflow act (suc fuel) id v m)
relation_workflow-Ends act fuel id v m ts a b =
    fire_transition-Ends relation_workflow (λ _. 0) act (suc fuel) id v m ts relation-IsSound a b
      (omega arith)

-- No two transitions of the list have one alias.
abbrev lacks_alias : Option String → List Transition → Bool
lacks_alias none ts = true
lacks_alias (some a) [] = true
lacks_alias (some a) (t ∷ ts) = not (alias_is a t.alias) && lacks_alias (some a) ts

abbrev has_distinct_aliases : List Transition → Bool
has_distinct_aliases [] = true
has_distinct_aliases (t ∷ ts) = lacks_alias t.alias ts && has_distinct_aliases ts

abbrev row_is_distinct : Workflow → State → Bool
row_is_distinct w s = elim (get_transitions s w) [
  | raise e ↦ false
  | ok ts ↦ has_distinct_aliases ts
]

unit_is_distinct :
    all (λ (row : State × List String). row_is_distinct unit_workflow row.0) unit_workflow.sources
    ≡ true
unfolding unit_workflow get_transitions lookup insert
unit_is_distinct = refl

with_alias-eq-nil :
    (a : String) (ts : List Transition) → lacks_alias (some a) ts ≡ true → with_alias a ts ≡ []
unfolding with_alias
with_alias-eq-nil a [] h = refl
with_alias-eq-nil a (t ∷ ts) h = elim (Bool-cases (alias_is a t.alias)) [
  | inl e ↦ absurd (ground arith)
  | inr e ↦ rw e (with_alias-eq-nil a ts (ground arith))
]

pub alias_is-eq : (a : String) (o : Option String) → alias_is a o ≡ true → o ≡ some a
alias_is-eq a none h = cc
alias_is-eq a (some b) h = sym (ap some ((eq_iff a b).0 h))

length-with_alias :
    (a : String) (ts : List Transition)
    → has_distinct_aliases ts ≡ true
    → length (with_alias a ts) ≤ 1
unfolding with_alias
length-with_alias a [] h = omega arith
length-with_alias a (t ∷ ts) h =
    let (lacks, rest) = both h in
    elim (Bool-cases (alias_is a t.alias)) [
      | inl e ↦
          let alone =
            with_alias-eq-nil a ts
              (subst (λ o. lacks_alias o ts ≡ true) (alias_is-eq a t.alias e) lacks) in
          rw (e, alone) (omega arith)
      | inr e ↦ rw e (length-with_alias a ts rest)
    ]
  where
    both :
        has_distinct_aliases (t ∷ ts) ≡ true
        → (lacks_alias t.alias ts ≡ true) × (has_distinct_aliases ts ≡ true)
    both h = both_of_&& (lacks_alias t.alias ts) (has_distinct_aliases ts) h

has_id_of_alias :
    (a : String) (ts us : List Transition) (t : Transition)
    → with_alias a ts ≡ t ∷ us
    → has_id t.transition_id ts ≡ true
unfolding with_alias
has_id_of_alias a [] us t h = absurd (cc)
has_id_of_alias a (x ∷ ts) us t h = elim (Bool-cases (alias_is a x.alias)) [
  | inl e ↦ ground (arith, eq_iff x.transition_id t.transition_id)
  | inr e ↦ ground (arith, has_id_of_alias a ts us t)
]

fire_only-invalid_iff :
    {W : Type 0} (act : Actions W) (fuel : ℕ) (m : Machine W) (ts found : List Transition)
    (alias : String)
    → get_available_transitions unit_workflow m ≡ ok ts
    → with_alias alias ts ≡ found
    → length found ≤ 1
    → ((fire_only (fire_transition unit_workflow act (suc (suc (suc (suc fuel))))) found m).1
        ≡ raise invalid_transition)
      ↔ (found ≡ [])
fire_only-invalid_iff act fuel m ts [] alias a f h = (λ _. refl, λ _. refl)
fire_only-invalid_iff act fuel m ts (t ∷ []) alias a f h = (
  λ e. absurd (
      invalid≢action (
        unit_workflow-Ends act fuel t.transition_id [] m ts a (has_id_of_alias alias ts [] t f)
          invalid_transition e)),
  λ e. absurd (cc),
)
  where
    invalid≢action : invalid_transition ≡ action_error → ⊥
    invalid≢action e = cc
fire_only-invalid_iff act fuel m ts (t ∷ t' ∷ us) alias a f h = absurd (omega arith)

row_distinct :
    {W : Type 0} (m : Machine W) (ts : List Transition)
    → get_available_transitions unit_workflow m ≡ ok ts
    → has_distinct_aliases ts ≡ true
unfolding get_available_transitions
row_distinct m ts a =
    let (ids, found) = get_transitions-ids (get_state m) unit_workflow ts a in
    let row =
      all-sources (row_is_distinct unit_workflow) unit_workflow.sources (get_state m) ids
        unit_is_distinct found in
    row_of (get_transitions (get_state m) unit_workflow) row a
  where
    row_of :
        (r : Result Error (List Transition))
        → elim r [ raise e ↦ false | ok us ↦ has_distinct_aliases us ] ≡ true
        → r ≡ ok ts
        → has_distinct_aliases ts ≡ true
    row_of r h e = ground arith

-- Firing an alias ("retry", "retry_hook") in a unit's workflow is never ambiguous: it is refused as
-- invalid exactly when no available transition has the alias.
pub unit_fire_transition_alias_iff :
    {W : Type 0} (act : Actions W) (fuel : ℕ) (alias : String) (m : Machine W)
    (ts : List Transition)
    → get_available_transitions unit_workflow m ≡ ok ts
    → ((fire_transition_alias unit_workflow act (suc (suc (suc (suc fuel)))) alias m).1
        ≡ raise invalid_transition)
      ↔ (with_alias alias ts ≡ [])
unfolding fire_transition_alias
unit_fire_transition_alias_iff act fuel alias m ts a =
    subst
      (λ r.
        ((fire_alias_among (fire_transition unit_workflow act (suc (suc (suc (suc fuel))))) alias r
            m).1
          ≡ raise invalid_transition)
        ↔ (with_alias alias ts ≡ []))
      (sym a)
      (fire_only-invalid_iff act fuel m ts (with_alias alias ts) alias a refl
        (length-with_alias alias ts (row_distinct m ts a)))
