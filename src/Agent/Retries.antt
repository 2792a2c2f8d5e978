-- ===== src/Agent/Retries.antt =====
-- juju/unit/workflow.py: the transitions by which a unit is resolved, those with an alias, do not follow the
-- failure of another.
use trusted_juju.Prelude.{
  String, Bool, true, false, not, ◌&&◌, Option, none, some, List, [], ◌∷◌, ◌≡◌, refl, subst, inl,
  inr, arith, ok, raise, str_eq, Bool-cases, Result, both_of_&&,
}
use trusted_juju.Prelude.Dict.{lookup, insert}
use trusted_juju.Workflow.Defs.{Error, State, Transition, get_transitions, has_id}
use trusted_juju.Workflow.Machine.{with_alias, alias_is}
use trusted_juju.Workflow.Unit.{unit_workflow}
use trusted_juju.Workflow.UnitLaws.{alias_is-eq}
use trusted_juju.Workflow.Check.{all, all-sources, get_transitions-ids}

eq_false_of_not : (b : Bool) → not b ≡ true → b ≡ false
eq_false_of_not true h = cc
eq_false_of_not false h = refl

-- A transition with an alias is available, and does not follow the failure of another.
abbrev pub can_retry : List Transition → Transition → Bool
can_retry ts t = elim (t.alias) [
  | none ↦ true
  | some a ↦
      has_id t.transition_id ts
      && (not (str_eq t.transition_id "upgrade_charm_error")
          && not (str_eq t.transition_id "error_retry_configure"))
]

abbrev can_retry_in : State → Bool
can_retry_in s = elim (get_transitions s unit_workflow) [
  | raise e ↦ false
  | ok ts ↦ all (can_retry ts) ts
]

unit_can_retry :
    all (λ (row : State × List String). can_retry_in row.0) unit_workflow.sources ≡ true
unfolding unit_workflow get_transitions lookup insert
unit_can_retry = refl

pub retries :
    (s : State) (ts : List Transition)
    → get_transitions s unit_workflow ≡ ok ts
    → all (can_retry ts) ts ≡ true
retries s ts a =
    let (ids, found) = get_transitions-ids s unit_workflow ts a in
    subst
      (λ (r : Result Error (List Transition)).
        elim r [ raise e ↦ false | ok us ↦ all (can_retry us) us ] ≡ true)
      a (all-sources can_retry_in unit_workflow.sources s ids unit_can_retry found)

named_of :
    (a : String) (o : Option String) (p : Bool)
    → o ≡ some a
    → elim o [ none ↦ true | some b ↦ p ] ≡ true
    → p ≡ true
named_of a none p e h = absurd (cc)
named_of a (some b) p e h = h

first_eq : (x t : Transition) (xs us : List Transition) → x ∷ xs ≡ t ∷ us → x ≡ t
first_eq x t xs us e = cc

pub with_alias-retries :
    (a : String) (all_of ts us : List Transition) (t : Transition)
    → all (can_retry all_of) ts ≡ true
    → with_alias a ts ≡ t ∷ us
    → (has_id t.transition_id all_of ≡ true)
      × (str_eq t.transition_id "upgrade_charm_error" ≡ false)
      × (str_eq t.transition_id "error_retry_configure" ≡ false)
unfolding with_alias
with_alias-retries a all_of [] us t h e = absurd (cc)
with_alias-retries a all_of (x ∷ ts) us t h e = elim (Bool-cases (alias_is a x.alias)) [
  | inl f ↦
      let here =
        named_of a x.alias
          (has_id x.transition_id all_of
            && (not (str_eq x.transition_id "upgrade_charm_error")
                && not (str_eq x.transition_id "error_retry_configure")))
          (alias_is-eq a x.alias f) (both_of_&& (can_retry all_of x) _ h).0 in
      let (among, apart) = both_of_&& (has_id x.transition_id all_of) _ here in
      let (upgrade, rare) =
        both_of_&& (not (str_eq x.transition_id "upgrade_charm_error")) _ apart in
      subst
        (λ (y : Transition).
          (has_id y.transition_id all_of ≡ true)
          × (str_eq y.transition_id "upgrade_charm_error" ≡ false)
          × (str_eq y.transition_id "error_retry_configure" ≡ false))
        (first_eq x t (with_alias a ts) us (rw f at e))
        (
          among,
          eq_false_of_not (str_eq x.transition_id "upgrade_charm_error") upgrade,
          eq_false_of_not (str_eq x.transition_id "error_retry_configure") rare,
        )
  | inr f ↦ with_alias-retries a all_of ts us t (ground arith) (rw f at e)
]
