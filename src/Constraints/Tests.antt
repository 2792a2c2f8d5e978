-- ===== src/Constraints/Tests.antt =====
-- Runs on small constraints, and the theorems about them at inputs that meet their hypotheses.
use trusted_juju.Prelude.{
  ◌&&◌, ◌||◌, String, true, false, sym, ap, ◌∙◌, All, Bool-cases, inl, inr, none, some, List, [],
  ◌∷◌, ◌≡◌, refl, str_eq, ok, raise,
}
use trusted_juju.Prelude.Dict.{Dict, lookup, insert}
use trusted_juju.Prelude.Sets.{contains, add, sorted, str_leb, insert_sorted}
use trusted_juju.Constraints.Defs.{
  ConstraintType, ConstraintSet, names_or, convert, register, new_constraint_set, add_all,
  conflicts_of, conflict_with, conflict_all, register_conflicts, get, split_at_sign, put_value,
  parse_split, parse_all, Data, check_none, check_value, check_names, mask, parse, update,
}
use trusted_juju.Constraints.Conflicts.{IsMasked, IsSymmetric, update-Masked, parse-Masked}
use trusted_juju.Constraints.Symmetry.{register_conflicts-Symmetric}

program : Unit {0}
unfolding contains add sorted str_leb insert_sorted convert register new_constraint_set add_all
    conflicts_of conflict_with conflict_all register_conflicts get split_at_sign put_value
    parse_split parse_all check_none check_value check_names mask parse update lookup insert
program = tt

abbrev any_text : ConstraintType String
any_text = record { default = none; converter = λ s. some s; comparer = str_eq; visible = true }

abbrev registered : ConstraintSet String
registered = register "instance-type" any_text (
    register "mem" any_text
      (register "cpu" any_text (new_constraint_set "ec2" (λ s. some s) str_eq)))

abbrev ec2 : ConstraintSet String
ec2 = elim (register_conflicts ("cpu" ∷ "mem" ∷ []) ("instance-type" ∷ []) registered) [
  | ok c ↦ c
  | raise e ↦ registered
]

lookup-eq-nil :
    (y : String) (d : Dict (List String))
    → All (λ (row : String × List String). row.1 ≡ []) d
    → names_or (lookup y d) ≡ []
unfolding lookup
lookup-eq-nil y [] h = refl
lookup-eq-nil y ((k, names) ∷ d) h = elim (Bool-cases (str_eq k y)) [
  | inl e ↦ rw e (h.0)
  | inr e ↦ rw e (lookup-eq-nil y d (h.1))
]

registered-Symmetric : IsSymmetric registered
unfolding program
registered-Symmetric x y h = absurd (
    no_member (
      sym (
        ap (contains x)
          (lookup-eq-nil y registered.conflicts (refl, (refl, (refl, (refl, (refl, tt)))))))
      ∙ h))
  where
    no_member : false ≡ true → ⊥
    no_member p = cc

-- A machine with two cores, and what a type of instance makes of it.
abbrev cores : Data
cores = elim (parse ec2 ("cpu=2" ∷ [])) [ ok values ↦ values | raise e ↦ [] ]

abbrev instance_type : Data
instance_type = elim (parse ec2 ("instance-type=m1.small" ∷ [])) [
  | ok values ↦ values
  | raise e ↦ []
]

-- The cores are forgotten.
overrides : lookup "cpu" (update cores instance_type) ≡ some none
unfolding program
overrides = refl

register_conflicts-Symmetric_example :
    ((x y : String)
      → contains y (conflicts_of ec2 x) ≡ (
          contains x ("instance-type" ∷ []) && contains y ("cpu" ∷ "mem" ∷ [])
          || (contains x ("cpu" ∷ "mem" ∷ []) && contains y ("instance-type" ∷ [])
              || contains y (conflicts_of registered x))))
    × (IsSymmetric registered → IsSymmetric ec2)
unfolding program
register_conflicts-Symmetric_example =
    register_conflicts-Symmetric ("cpu" ∷ "mem" ∷ []) ("instance-type" ∷ []) registered ec2 refl

parse-Masked_example : IsMasked ec2 cores
unfolding program
parse-Masked_example = parse-Masked ec2 ("cpu=2" ∷ []) cores refl

update-Masked_example : IsMasked ec2 (update cores instance_type)
unfolding program
update-Masked_example =
    update-Masked ec2 cores instance_type
      ((register_conflicts-Symmetric ("cpu" ∷ "mem" ∷ []) ("instance-type" ∷ []) registered ec2
          refl).1
        registered-Symmetric)
      (refl, (refl, (refl, (refl, tt)))) (parse-Masked ec2 ("cpu=2" ∷ []) cores refl)
      (parse-Masked ec2 ("instance-type=m1.small" ∷ []) instance_type refl)
