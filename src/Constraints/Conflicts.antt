-- ===== src/Constraints/Conflicts.antt =====
-- juju/machine/constraints.py: constraints that conflict mask each other, in what is parsed and in what
-- one set of constraints makes of another that it overrides.
use trusted_juju.Prelude.{
  String, true, not, ◌||◌, Option, none, some, List, [], ◌∷◌, ◌≡◌, refl, ◌∙◌, sym, ap, subst,
  if◌then◌else◌, str_eq, eq_iff, arith, Result, ok, check, >>=-eq-ok, Bool-cases, inl, inr,
}
use trusted_juju.Prelude.Dict.{lookup, insert, keys, has_key, is_some, IsDistinct, lookup-insert}
use trusted_juju.Prelude.Sets.{contains, add, sorted, contains-add, contains-sorted, has_key-keys}
use trusted_juju.Constraints.Defs.{
  Error, constraint_error, key_error, ConstraintSet, conflicts_of, Data, check_none, check_value,
  check_names, mask, parse_all, parse, update,
}

-- A constraint that has a value masks all that conflict with it.
abbrev pub IsMasked : {V : Type 0} → ConstraintSet V → Data → Type 0
IsMasked c values =
    (name x : String) (value : String)
    → lookup name values ≡ some (some value)
    → contains x (conflicts_of c name) ≡ true
    → lookup x values ≡ some none

abbrev pub IsSymmetric : {V : Type 0} → ConstraintSet V → Type 0
IsSymmetric c =
    (x y : String) → contains x (conflicts_of c y) ≡ true → contains y (conflicts_of c x) ≡ true

lookup-update :
    (x : String) (values other : Data)
    → IsDistinct other
    → lookup x (update values other) ≡ (if has_key x other then lookup x other else lookup x values)
unfolding update lookup
lookup-update x values [] d = refl
lookup-update x values ((k, v) ∷ other) d =
    lookup-update x (insert k v values) other (d.1)
    ∙ ground (arith, lookup-insert k x v values, eq_iff k x, d.0)

-- Where conflicts go both ways, the constraints that override others stand under each name once, and
-- both they and those that they override mask what conflicts with them, so does the result: no two
-- constraints that conflict have values.
pub update-Masked :
    {V : Type 0} (c : ConstraintSet V) (values other : Data)
    → IsSymmetric c
    → IsDistinct other
    → IsMasked c values
    → IsMasked c other
    → IsMasked c (update values other)
update-Masked c values other symmetric distinct masked others name x value found conflict =
    by_keys (lookup name other) (lookup x other) refl refl
  where
    some_eq : (a b : Option String) → ◌≡◌ {A = Option (Option String)} (some a) (some b) → a ≡ b
    some_eq a b p = cc

    by_keys :
        (o p : Option (Option String))
        → lookup name other ≡ o
        → lookup x other ≡ p
        → lookup x (update values other) ≡ some none
    by_keys (some v) p e f =
        let g = others name x value (e ∙ sym (found_in v e)) conflict in
        lookup-update x values other distinct ∙ ground (arith, g)
      where
        found_in : (v : Option String) → lookup name other ≡ some v → some (some value) ≡ some v
        found_in v e = sym found ∙ lookup-update name values other distinct ∙ ground (arith, e)
    by_keys none (some (some v)) e f =
        let g = others x name v f (symmetric x name conflict) in absurd (ground (arith, g, e))
    by_keys none (some none) e f = lookup-update x values other distinct ∙ ground (arith, f)
    by_keys none none e f =
        let here : lookup name values ≡ some (some value) =
          sym (lookup-update name values other distinct ∙ ground (arith, e)) ∙ found in
        lookup-update x values other distinct ∙ ground (arith, f, masked name x value here conflict)

lookup-mask :
    (x : String) (conflicts : List String) (values : Data)
    → lookup x (mask conflicts values)
      ≡ (if contains x conflicts then some none else lookup x values)
unfolding mask contains
lookup-mask x [] values = refl
lookup-mask x (k ∷ ks) values =
    lookup-mask x ks (insert k none values)
    ∙ ground (arith, lookup-insert k x none values, eq_iff k x)

-- The names that were masked before stay, and the conflicts are added.
ok_eq : (a b : List String) → ◌≡◌ {A = Result Error (List String)} (ok a) (ok b) → a ≡ b
ok_eq a b p = cc

check_none-contains :
    (values : Data) (names masked result : List String) (x : String)
    → check_none values names masked ≡ ok result
    → contains x result ≡ (contains x names || contains x masked)
unfolding check_none contains
check_none-contains values [] masked result x e = ap (contains x) (sym (ok_eq masked result e))
check_none-contains values (k ∷ ks) masked result x e =
    let (u, first, rest) =
      >>=-eq-ok (check (not (has_key k values)) constraint_error)
        (λ _. check_none values ks (add k masked)) e in
    check_none-contains values ks (add k masked) result x rest
    ∙ ground (arith, contains-add x k masked, eq_iff k x)

-- What a loop over names has masked: what was, and all that conflicts with those that have values.
record Masks {V : Type 0} (c : ConstraintSet V) (values : Data) (names masked result : List String)
    : Type 0 where
  pub kept : (x : String) → contains x masked ≡ true → contains x result ≡ true
  pub masks :
      (name value x : String)
      → contains name names ≡ true
      → lookup name values ≡ some (some value)
      → contains x (conflicts_of c name) ≡ true
      → contains x result ≡ true

module _ {V : Type 0} (c : ConstraintSet V) (values : Data) where
  check_value-masks :
      (name : String) (o : Option (Option String)) (masked result : List String)
      → check_value c values name o masked ≡ ok result
      → ((x : String) → contains x masked ≡ true → contains x result ≡ true)
        × ((value x : String)
            → o ≡ some (some value)
            → contains x (conflicts_of c name) ≡ true
            → contains x result ≡ true)
  unfolding check_value
  check_value-masks name none masked result e =
      (λ x h. ap (contains x) (sym (ok_eq masked result e)) ∙ h, λ value x o. absurd (cc))
  check_value-masks name (some none) masked result e = (
    λ x h. ap (contains x) (sym (ok_eq masked result e)) ∙ h,
    λ value x o. absurd (ground (arith, o)),
  )
  check_value-masks name (some (some v)) masked result e =
      let (u, first, rest) =
        >>=-eq-ok (check (has_key name c.conflicts) (key_error name))
          (λ _. check_none values (sorted (conflicts_of c name)) masked) e in
      let both = λ (x : String).
        check_none-contains values (sorted (conflicts_of c name)) masked result x rest in
      (
        λ x h. both x ∙ ground (arith, h),
        λ value x o h. both x ∙ ground (arith, contains-sorted x (conflicts_of c name), h),
      )

  check_names-Masks :
      (names masked result : List String)
      → check_names c values names masked ≡ ok result
      → Masks c values names masked result
  unfolding check_names contains
  check_names-Masks [] masked result e = record {
    kept = λ x h. ap (contains x) (sym (ok_eq masked result e)) ∙ h;
    masks = λ name value x h. absurd (cc);
  }
  check_names-Masks (k ∷ ks) masked result e =
      let (mid, first, rest) =
        >>=-eq-ok (check_value c values k (lookup k values) masked) (check_names c values ks) e in
      let (kept, here) = check_value-masks k (lookup k values) masked mid first in
      let more = check_names-Masks ks mid result rest in
      record {
        kept = λ x h. more.kept x (kept x h);
        masks = λ name value x among found conflict. elim (Bool-cases (str_eq k name)) [
          | inl same ↦
              let eq = (eq_iff k name).0 same in
              more.kept x (
                here value x (ap (λ i. lookup i values) eq ∙ found)
                  (ap (λ i. contains x (conflicts_of c i)) eq ∙ conflict))
          | inr apart ↦ more.masks name value x (ground arith) found conflict
        ];
      }

-- Whatever texts are parsed: where they are accepted, a constraint with a value masks all that
-- conflict with it, so that no two constraints that conflict have values.
pub parse-Masked :
    {V : Type 0} (c : ConstraintSet V) (strs : List String) (values : Data)
    → parse c strs ≡ ok values
    → IsMasked c values
unfolding parse
parse-Masked c strs values e =
    let (parsed, first, rest) =
      >>=-eq-ok (parse_all c strs (("provider-type", some c.provider_type) ∷ [])) _ e in
    let (conflicts, checked, last) =
      >>=-eq-ok (check_names c parsed (sorted (keys parsed)) []) _ rest in
    let m = check_names-Masks c parsed (sorted (keys parsed)) [] conflicts checked in
    λ name x value found conflict.
      subst (λ v. lookup x v ≡ some none) (data_eq (mask conflicts parsed) values last)
        (masked_in parsed conflicts name x value
          (ap (lookup name) (data_eq (mask conflicts parsed) values last) ∙ found)
          (λ here.
            m.masks name value x
              (contains-sorted name (keys parsed) ∙ has_key-keys name parsed ∙ ap is_some here) here
              conflict))
  where
    data_eq : (a b : Data) → ◌≡◌ {A = Result Error Data} (ok a) (ok b) → a ≡ b
    data_eq a b p = cc

    masked_in :
        (parsed : Data) (conflicts : List String) (name x value : String)
        → lookup name (mask conflicts parsed) ≡ some (some value)
        → (lookup name parsed ≡ some (some value) → contains x conflicts ≡ true)
        → lookup x (mask conflicts parsed) ≡ some none
    masked_in parsed conflicts name x value found among =
        let here : lookup name parsed ≡ some (some value) =
          ground (arith, found, lookup-mask name conflicts parsed) in
        lookup-mask x conflicts parsed ∙ ground (arith, among here)
