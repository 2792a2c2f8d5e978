-- ===== src/Prelude/Sets.antt =====
-- Python sets of texts, as lists, and `sorted`, by the order of the code points.
use Prim.Native.Char.{code}
use Prim.Native.String.{String}
use mathlib.Core.Path.{◌≡◌, refl, ◌∙◌}
use mathlib.Core.Logic.{inl, inr}
use mathlib.Core.Bool.{Bool, true, false, ◌||◌, ◌&&◌, not}
use mathlib.Core.List.{List, [], ◌∷◌, ◌++◌}
use native.Mathlib.Omega.{arith}
use text.Mathlib.Text.{◌==◌}
use text.Mathlib.TextEquality.{eq_iff}
use trusted_juju.Prelude.Dict.{Dict, lookup, keys, has_key}
use trusted_juju.Prelude.Tests.{if◌then◌else◌, ltb, Bool-cases}

-- `x in s`
unfoldable pub contains : String → List String → Bool
contains x [] = false
contains x (y ∷ ys) = y == x || contains x ys

-- `s.add(x)`
unfoldable pub add : String → List String → List String
unfolding contains
add x s = if contains x s then s else s ++ x ∷ []

-- `l.remove(x)` of a list and `s.remove(x)` of a set, where `x` is there: the first goes.
unfoldable pub remove_first : String → List String → List String
remove_first x [] = []
remove_first x (y ∷ ys) = if y == x then ys else y ∷ remove_first x ys

-- `set(xs) - set(ys)`, in the order of `xs`
unfoldable pub difference : List String → List String → List String
unfolding contains
difference [] ys = []
difference (x ∷ xs) ys =
    let rest = difference xs ys in if contains x ys || contains x rest then rest else x ∷ rest

-- `a <= b`
unfoldable pub str_leb : String → String → Bool
str_leb String.[] b = true
str_leb (String.◌∷◌ c a) String.[] = false
str_leb (String.◌∷◌ c a) (String.◌∷◌ d b) =
    if ltb (code c) (code d) then true else if ltb (code d) (code c) then false else str_leb a b

unfoldable pub insert_sorted : String → List String → List String
unfolding str_leb
insert_sorted x [] = x ∷ []
insert_sorted x (y ∷ ys) = if str_leb x y then x ∷ y ∷ ys else y ∷ insert_sorted x ys

unfoldable pub sorted : List String → List String
unfolding insert_sorted
sorted [] = []
sorted (x ∷ xs) = insert_sorted x (sorted xs)

pub contains-insert_sorted :
    (x y : String) (ys : List String) → contains x (insert_sorted y ys) ≡ (y == x || contains x ys)
unfolding contains insert_sorted
contains-insert_sorted x y [] = refl
contains-insert_sorted x y (z ∷ ys) = ground (arith, contains-insert_sorted x y ys)

-- Sorting keeps the members.
pub contains-sorted : (x : String) (ys : List String) → contains x (sorted ys) ≡ contains x ys
unfolding contains sorted
contains-sorted x [] = refl
contains-sorted x (y ∷ ys) =
    ground (arith, contains-insert_sorted x y (sorted ys), contains-sorted x ys)

pub contains-append :
    (x : String) (xs ys : List String) → contains x (xs ++ ys) ≡ (contains x xs || contains x ys)
unfolding contains
contains-append x [] ys = refl
contains-append x (y ∷ xs) ys = ground (arith, contains-append x xs ys)

pub contains-add :
    (x y : String) (s : List String) → contains x (add y s) ≡ (y == x || contains x s)
unfolding add contains
contains-add x y s = ground (arith, eq_iff y x, contains-append x s (y ∷ []))

pub contains-difference :
    (x : String) (xs ys : List String)
    → contains x (difference xs ys) ≡ (contains x xs && not (contains x ys))
unfolding contains difference
contains-difference x [] ys = refl
contains-difference x (z ∷ xs) ys = ground (arith, eq_iff z x, contains-difference x xs ys)

-- A set: no text stands twice.
abbrev pub IsSetLike : List String → Type 0
IsSetLike [] = Unit
IsSetLike (x ∷ xs) = (contains x xs ≡ false) × IsSetLike xs

pub contains-remove_first :
    (x y : String) (s : List String)
    → IsSetLike s
    → contains x (remove_first y s) ≡ (not (y == x) && contains x s)
unfolding contains remove_first
contains-remove_first x y [] d = ground arith
contains-remove_first x y (z ∷ s) d =
    ground (arith, eq_iff z x, eq_iff y x, eq_iff z y, contains-remove_first x y s)

pub append-IsSetLike :
    (x : String) (s : List String) → contains x s ≡ false → IsSetLike s → IsSetLike (s ++ x ∷ [])
unfolding contains
append-IsSetLike x [] h d = (refl, tt)
append-IsSetLike x (y ∷ s) h d = (
  ground (arith, eq_iff x y, eq_iff y x, contains-append y s (x ∷ [])),
  append-IsSetLike x s (ground arith) d.1,
)

pub add-IsSetLike : (x : String) (s : List String) → IsSetLike s → IsSetLike (add x s)
unfolding add
add-IsSetLike x s d = elim (Bool-cases (contains x s)) [
  | inl e ↦ rw e d
  | inr e ↦ rw e (append-IsSetLike x s e d)
]

pub remove_first-IsSetLike :
    (x : String) (s : List String) → IsSetLike s → IsSetLike (remove_first x s)
unfolding remove_first contains
remove_first-IsSetLike x [] d = tt
remove_first-IsSetLike x (y ∷ s) d = elim (Bool-cases (y == x)) [
  | inl e ↦ rw e (d.1)
  | inr e ↦ rw e (ground (arith, contains-remove_first y x s), remove_first-IsSetLike x s d.1)
]

insert_sorted-IsSetLike :
    (x : String) (ys : List String)
    → contains x ys ≡ false
    → IsSetLike ys
    → IsSetLike (insert_sorted x ys)
unfolding contains insert_sorted
insert_sorted-IsSetLike x [] h d = (refl, tt)
insert_sorted-IsSetLike x (y ∷ ys) h d = elim (Bool-cases (str_leb x y)) [
  | inl e ↦ rw e (h, d)
  | inr e ↦ rw e (
    ground (arith, eq_iff x y, eq_iff y x, contains-insert_sorted y x ys),
    insert_sorted-IsSetLike x ys (ground arith) d.1,
  )
]

pub sorted-IsSetLike : (xs : List String) → IsSetLike xs → IsSetLike (sorted xs)
unfolding sorted
sorted-IsSetLike [] d = tt
sorted-IsSetLike (x ∷ xs) d =
    insert_sorted-IsSetLike x (sorted xs) (contains-sorted x xs ∙ d.0) (sorted-IsSetLike xs d.1)

pub difference-IsSetLike : (xs ys : List String) → IsSetLike (difference xs ys)
unfolding difference
difference-IsSetLike [] ys = tt
difference-IsSetLike (x ∷ xs) ys =
    elim (Bool-cases (contains x ys || contains x (difference xs ys))) [
      | inl e ↦ rw e (difference-IsSetLike xs ys)
      | inr e ↦ rw e (ground arith, difference-IsSetLike xs ys)
    ]

pub has_key-keys {ℓ} : {V : Type ℓ} (k : String) (m : Dict V) → contains k (keys m) ≡ has_key k m
unfolding contains lookup
has_key-keys k [] = refl
has_key-keys k ((j, v) ∷ m) = ground (arith, has_key-keys k m)
