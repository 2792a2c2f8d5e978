-- ===== src/Settings/Union.antt =====
-- juju/state/utils.py, `dict_merge`: when it succeeds, and with what.
use trusted_juju.Prelude.{
  Bool, true, String, Option, none, some, [], ◌∷◌, ok, ◌≡◌, ◌↔◌, refl, arith, str_eq, eq_iff,
  Bool-cases, Option-cases, inl, inr, ◌∙◌, ap,
}
use trusted_juju.Prelude.Dict.{Dict, lookup, insert, lookup-insert, IsDistinct}
use trusted_juju.Settings.Buffer.{update, values_match, dict_merge}

module _ {V : Type 0} where
  abbrev pub or_else : Option V → Option V → Option V
  or_else none o = o
  or_else (some v) o = some v

  update-lookup :
      (d more : Dict V) (k : String)
      → IsDistinct more
      → lookup k (update d more) ≡ or_else (lookup k more) (lookup k d)
  unfolding update lookup
  update-lookup d [] k distinct = refl
  update-lookup d ((j, v) ∷ more) k distinct =
      ground
        (arith, eq_iff j k, update-lookup (insert j v d) more k distinct.1, lookup-insert j k v d)

module _ {V : Type 0} (eq : V → V → Bool) where
  -- A key of both has equal values.
  abbrev pub Agree : Dict V → Dict V → Type 0
  Agree d1 d2 = (k : String) (v w : V) → lookup k d1 ≡ some v → lookup k d2 ≡ some w → eq v w ≡ true

  values_match-Agree : (d1 d2 : Dict V) → values_match eq d1 d2 ≡ true → Agree d1 d2
  unfolding values_match lookup
  values_match-Agree [] d2 h k v w e1 e2 = absurd (ground arith)
  values_match-Agree ((j, u) ∷ d1) d2 h k v w e1 e2 =
      let tail : values_match eq d1 d2 ≡ true = ground arith in
      let rest = values_match-Agree d1 d2 tail k v w in
      elim (Bool-cases (str_eq j k)) [
        | inl same ↦ ground (arith, eq_iff j k)
        | inr apart ↦ rest (rw apart at e1) e2
      ]

  Agree-tail :
      (j : String) (u : V) (d1 d2 : Dict V)
      → lookup j d1 ≡ none
      → Agree ((j, u) ∷ d1) d2
      → Agree d1 d2
  unfolding lookup
  Agree-tail j u d1 d2 absent agree k v w e1 e2 = agree k v w (ground (arith, eq_iff j k)) e2

  Agree-values_match : (d1 d2 : Dict V) → IsDistinct d1 → Agree d1 d2 → values_match eq d1 d2 ≡ true
  unfolding values_match lookup
  Agree-values_match [] d2 distinct agree = refl
  Agree-values_match ((j, u) ∷ d1) d2 distinct agree =
      let rest = Agree-values_match d1 d2 distinct.1 (Agree-tail j u d1 d2 distinct.0 agree) in
      let found : lookup j ((j, u) ∷ d1) ≡ some u = ground (arith, eq_iff j j) in
      elim (Option-cases (lookup j d2)) [
        | inl e ↦ ground arith
        | inr (w, e) ↦ ground (arith, agree j u w found e)
      ]

  -- Two dicts are merged exactly where they agree on their common keys, and a key of the result is
  -- looked up in the second dict and then in the first.
  pub dict_merge_iff :
      (d1 d2 : Dict V)
      → IsDistinct d1
      → IsDistinct d2
      → Agree d1 d2 ↔ (
          (d : Dict V) × (dict_merge eq d1 d2 ≡ ok d)
          × ((k : String) → lookup k d ≡ or_else (lookup k d2) (lookup k d1)))
  unfolding dict_merge lookup
  dict_merge_iff d1 d2 distinct1 distinct2 = (
    λ agree. (
      update (update [] d1) d2,
      ground (arith, Agree-values_match d1 d2 distinct1 agree),
      λ k.
          update-lookup (update [] d1) d2 k distinct2
          ∙ ap (or_else (lookup k d2)) (update-lookup [] d1 k distinct1 ∙ unchanged (lookup k d1)),
    ),
    λ (d, e, _). values_match-Agree d1 d2 (ground arith),
  )
    where
      unchanged : (o : Option V) → or_else o none ≡ o
      unchanged none = refl
      unchanged (some v) = refl
