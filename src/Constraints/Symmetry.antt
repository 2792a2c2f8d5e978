-- ===== src/Constraints/Symmetry.antt =====
-- juju/machine/constraints.py, `register_conflicts`: conflicts go both ways.
use trusted_juju.Prelude.{
  String, ◌&&◌, ◌||◌, List, [], ◌∷◌, ◌≡◌, refl, ◌∙◌, sym, ap, str_eq, eq_iff, arith, Result, ok,
  >>=-eq-ok, Bool-cases, inl, inr,
}
use trusted_juju.Prelude.Dict.{lookup, insert, has_key, lookup-insert}
use trusted_juju.Prelude.Sets.{contains, add, contains-add}
use trusted_juju.Constraints.Defs.{
  Error, ConstraintSet, add_all, names_or, conflicts_of, conflict_with, conflict_all,
  register_conflicts,
}
use trusted_juju.Constraints.Conflicts.{IsSymmetric}

contains-add_all :
    (x : String) (xs s : List String) → contains x (add_all xs s) ≡ (contains x xs || contains x s)
unfolding add_all contains
contains-add_all x [] s = refl
contains-add_all x (y ∷ xs) s =
    contains-add_all x xs (add y s) ∙ ground (arith, contains-add x y s, eq_iff y x)

module _ {V : Type 0} where
  set_eq : (a b : ConstraintSet V) → ◌≡◌ {A = Result Error (ConstraintSet V)} (ok a) (ok b) → a ≡ b
  set_eq a b p = cc

  contains-conflict_with :
      (others : List String) (name : String) (c c' : ConstraintSet V) (x y : String)
      → conflict_with others name c ≡ ok c'
      → contains x (conflicts_of c' y)
        ≡ ((str_eq name y && contains x others) || contains x (conflicts_of c y))
  unfolding conflict_with conflicts_of
  contains-conflict_with others name c c' x y e = elim (Bool-cases (has_key name c.conflicts)) [
    | inr absent ↦ absurd (ground (arith, e))
    | inl there ↦
        let changed =
          insert name (add_all others (names_or (lookup name c.conflicts))) c.conflicts in
        let same : c'.conflicts ≡ changed =
          ap (λ (d : ConstraintSet V). d.conflicts)
            (sym (set_eq (record c { conflicts = changed }) c' (rw there at e))) in
        ap (λ d. contains x (names_or (lookup y d))) same
        ∙ ap (λ o. contains x (names_or o))
            (lookup-insert name y (add_all others (names_or (lookup name c.conflicts))) c.conflicts)
        ∙ elim (Bool-cases (str_eq name y)) [
          | inl s ↦ rw s (
              contains-add_all x others (names_or (lookup name c.conflicts))
              ∙ ap (λ i. contains x others || contains x (names_or (lookup i c.conflicts)))
                  ((eq_iff name y).0 s))
          | inr s ↦ rw s refl
        ]
  ]

  contains-conflict_all :
      (others names : List String) (c c' : ConstraintSet V) (x y : String)
      → conflict_all others names c ≡ ok c'
      → contains x (conflicts_of c' y)
        ≡ ((contains y names && contains x others) || contains x (conflicts_of c y))
  unfolding conflict_all contains
  contains-conflict_all others [] c c' x y e =
      ap (λ d. contains x (conflicts_of d y)) (sym (set_eq c c' e))
  contains-conflict_all others (k ∷ ks) c c' x y e =
      let (mid, first, rest) = >>=-eq-ok (conflict_with others k c) (conflict_all others ks) e in
      contains-conflict_all others ks mid c' x y rest
      ∙ ground (arith, contains-conflict_with others k c mid x y first)

-- Registering conflicts that succeeds makes each of the ones conflict with each of the others and the
-- other way around, adds no other conflict and drops none; where conflicts went both ways before, they
-- do afterwards.
pub register_conflicts-Symmetric :
    {V : Type 0} (reds blues : List String) (c c' : ConstraintSet V)
    → register_conflicts reds blues c ≡ ok c'
    → ((x y : String)
        → contains y (conflicts_of c' x) ≡ (
            contains x blues && contains y reds
            || (contains x reds && contains y blues || contains y (conflicts_of c x))))
      × (IsSymmetric c → IsSymmetric c')
unfolding register_conflicts
register_conflicts-Symmetric reds blues c c' e =
    let (mid, first, rest) = >>=-eq-ok (conflict_all blues reds c) (conflict_all reds blues) e in
    let both = λ (x y : String).
      contains-conflict_all reds blues mid c' y x rest
      ∙ ap (λ b. (contains x blues && contains y reds) || b)
          (contains-conflict_all blues reds c mid y x first) in
    (both, λ symmetric x y h. both x y ∙ ground (arith, h, both y x, symmetric x y))
