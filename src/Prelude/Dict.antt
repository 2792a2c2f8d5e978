-- ===== src/Prelude/Dict.antt =====
-- A Python dict with text keys, as an association list in which a key stands once. Iteration goes
-- along the list.
use mathlib.Core.Path.{◌≡◌, refl, sym, ap, ◌∙◌}
use mathlib.Core.Logic.{inl, inr, ◌⊎◌, ◌≢◌}
use mathlib.Core.Bool.{Bool, true, false, ◌||◌, false≢true}
use mathlib.Core.Option.{Option, none, some}
use mathlib.Core.List.{List, [], ◌∷◌}
use Prim.Native.String.{String}
use native.Mathlib.Omega.{arith}
use text.Mathlib.Text.{◌==◌}
use text.Mathlib.TextEquality.{eq_iff}
use trusted_juju.Prelude.Tests.{if◌then◌else◌, Bool-cases, Option-cases}

abbrev pub Dict {ℓ} : Type ℓ → Type ℓ
Dict V = List (String × V)

module _ {ℓ} {V : Type ℓ} where
  -- `d.get(k)`
  unfoldable pub lookup : String → Dict V → Option V
  lookup key [] = none
  lookup key ((k, value) ∷ d) = if k == key then some value else lookup key d

  -- `d[k] = v`
  unfoldable pub insert : String → V → Dict V → Dict V
  insert key value [] = (key, value) ∷ []
  insert key value ((k, old) ∷ d) =
      if k == key then (key, value) ∷ d else (k, old) ∷ insert key value d

  -- `del d[k]`
  unfoldable pub remove : String → Dict V → Dict V
  remove k [] = []
  remove k ((j, w) ∷ m) = if j == k then remove k m else (j, w) ∷ remove k m

  abbrev pub is_some : Option V → Bool
  is_some none = false
  is_some (some v) = true

  -- `k in d`
  abbrev pub has_key : String → Dict V → Bool
  has_key k m = is_some (lookup k m)

  abbrev pub keys : Dict V → List String
  keys [] = []
  keys ((k, v) ∷ m) = k ∷ keys m

  -- The first key, in the order of iteration, whose value passes the test.
  unfoldable pub find_key : (V → Bool) → Dict V → Option String
  find_key p [] = none
  find_key p ((k, v) ∷ m) = if p v then some k else find_key p m

  -- Some value passes the test.
  unfoldable pub any_value : (V → Bool) → Dict V → Bool
  any_value p [] = false
  any_value p ((k, v) ∷ m) = p v || any_value p m

  -- Every key stands once.
  abbrev pub IsDistinct : Dict V → Type ℓ
  IsDistinct [] = Unit
  IsDistinct ((k, v) ∷ m) = (lookup k m ≡ none) × IsDistinct m

  pub lookup-insert :
      (k j : String) (v : V) (m : Dict V)
      → lookup j (insert k v m) ≡ (if k == j then some v else lookup j m)
  unfolding lookup insert
  lookup-insert key other value [] = refl
  lookup-insert key other value ((k, _) ∷ d) =
      let rest = lookup-insert key other value d in
      ground (arith, rest, eq_iff key other, eq_iff k key, eq_iff k other)

  pub lookup-remove :
      (k j : String) (m : Dict V) → lookup j (remove k m) ≡ (if k == j then none else lookup j m)
  unfolding lookup remove
  lookup-remove k j [] = ground arith
  lookup-remove k j ((i, w) ∷ m) =
      ground (arith, eq_iff k j, eq_iff i k, eq_iff i j, lookup-remove k j m)

  pub insert-IsDistinct :
      (k : String) (v : V) (m : Dict V) → IsDistinct m → IsDistinct (insert k v m)
  unfolding lookup insert
  insert-IsDistinct k v [] d = (refl, tt)
  insert-IsDistinct k v ((i, w) ∷ m) d =
      ground (arith, eq_iff i k, eq_iff k i, insert-IsDistinct k v m d.1, lookup-insert k i v m)

  pub remove-IsDistinct : (k : String) (m : Dict V) → IsDistinct m → IsDistinct (remove k m)
  unfolding lookup remove
  remove-IsDistinct k [] d = tt
  remove-IsDistinct k ((i, w) ∷ m) d =
      ground (arith, eq_iff i k, remove-IsDistinct k m d.1, lookup-remove k i m)

  -- What no value passes, no looked-up value passes.
  pub any_value-eq-false :
      (p : V → Bool) (m : Dict V) (k : String) (v : V)
      → any_value p m ≡ false
      → lookup k m ≡ some v
      → p v ≡ false
  unfolding lookup any_value
  any_value-eq-false p [] k v h e = ground arith
  any_value-eq-false p ((i, w) ∷ m) k v h e = ground (arith, eq_iff i k, any_value-eq-false p m k v)

  pub any_value_of_lookup :
      (p : V → Bool) (m : Dict V) (k : String) (v : V)
      → lookup k m ≡ some v
      → p v ≡ true
      → any_value p m ≡ true
  unfolding lookup any_value
  any_value_of_lookup p [] k v e h = ground arith
  any_value_of_lookup p ((i, w) ∷ m) k v e h =
      ground (arith, eq_iff i k, any_value_of_lookup p m k v)

  -- A key that is found belongs to a value that passes the test.
  pub find_key-eq-some :
      (p : V → Bool) (m : Dict V) (k : String)
      → IsDistinct m
      → find_key p m ≡ some k
      → (v : V) × (lookup k m ≡ some v) × (p v ≡ true)
  unfolding lookup find_key
  find_key-eq-some p [] k d h = ground arith
  find_key-eq-some p ((i, w) ∷ m) k d h = elim (Bool-cases (p w)) [
    | inl e ↦ (w, ground (arith, eq_iff i k), e)
    | inr e ↦
        let (v, found, passes) = find_key-eq-some p m k d.1 (ground arith) in
        (v, ground (arith, eq_iff i k), passes)
  ]

  pub find_key-eq-none :
      (p : V → Bool) (m : Dict V) (k : String) (v : V)
      → find_key p m ≡ none
      → lookup k m ≡ some v
      → p v ≡ false
  unfolding lookup find_key
  find_key-eq-none p [] k v h e = ground arith
  find_key-eq-none p ((i, w) ∷ m) k v h e = ground (arith, eq_iff i k, find_key-eq-none p m k v)

  pub insert_cases :
      (k j : String) (v w : V) (m : Dict V)
      → lookup j (insert k v m) ≡ some w
      → (k ≡ j) × (v ≡ w) ⊎ (k ≢ j) × (lookup j m ≡ some w)
  insert_cases k j v w m h = ground (arith, eq_iff k j, lookup-insert k j v m)

  pub lookup_of_remove :
      (k j : String) (w : V) (m : Dict V)
      → lookup j (remove k m) ≡ some w
      → (k ≢ j) × (lookup j m ≡ some w)
  lookup_of_remove k j w m h = ground (arith, eq_iff k j, lookup-remove k j m)

  pub lookup-empty : (k : String) (v : V) → lookup k [] ≢ some v
  unfolding lookup
  lookup-empty k v h = cc

  -- The search finds the only key whose value passes the test.
  pub find_key_of_unique :
      (p : V → Bool) (m : Dict V) (k : String) (v : V)
      → IsDistinct m
      → lookup k m ≡ some v
      → p v ≡ true
      → ((j : String) (w : V) → lookup j m ≡ some w → p w ≡ true → j ≡ k)
      → find_key p m ≡ some k
  find_key_of_unique p m k v d h passes only = elim (Option-cases (find_key p m)) [
    | inl absent ↦ absurd (false≢true (sym (find_key-eq-none p m k v absent h) ∙ passes))
    | inr (j, found) ↦
        let (w, hw, e) = find_key-eq-some p m j d found in found ∙ ap some (only j w hw e)
  ]

  pub any_value-eq-true :
      (p : V → Bool) (m : Dict V)
      → IsDistinct m
      → any_value p m ≡ true
      → (k : String) × (v : V) × (lookup k m ≡ some v) × (p v ≡ true)
  unfolding lookup any_value
  any_value-eq-true p [] d h = absurd (false≢true h)
  any_value-eq-true p ((i, w) ∷ m) d h = elim (Bool-cases (p w)) [
    | inl e ↦ (i, w, ground (arith, eq_iff i i), e)
    | inr e ↦
        let (k, v, found, passes) = any_value-eq-true p m d.1 (ground arith) in
        (k, v, ground (arith, eq_iff i k), passes)
  ]
