-- ===== src/Scheduler/Merge.antt =====
-- juju/hooks/scheduler.py, `_queue_change` with offset 0: the queue of an idle scheduler.
use trusted_juju.Prelude.{
  ℕ, zero, suc, ◌≤◌, String, true, none, some, List, [], ◌∷◌, ◌++◌, str_eq, eq_iff, eq_refl, ◌≡◌,
  ◌≢◌, refl, sym, ◌∙◌, length, arith, inl, inr, Option-cases, Bool-cases,
}
use mathlib.Core.Bool.{false≢true}
use mathlib.Core.List.{append-nil}
use trusted_juju.Prelude.Sets.{contains}
use trusted_juju.Scheduler.Queue.{
  ChangeType, Change, texts_eq, change_eq, last_of, index_of, wipe_member, remove_at,
}
use trusted_juju.Scheduler.Presence.{types_of, IsMerged}

pub last_of-unit :
    (u : String) (l : List Change) (p : Change) → last_of u l ≡ some p → p.unit_name ≡ u
unfolding last_of
last_of-unit u [] p h = ground arith
last_of-unit u (q ∷ l) p h = elim (Option-cases (last_of u l)) [
  | inl e ↦ ground (arith, eq_iff q.unit_name u)
  | inr (x, e) ↦ last_of-unit u l p (ground arith)
]

pub types_of-eq-nil : (u : String) (l : List Change) → last_of u l ≡ none → types_of u l ≡ []
unfolding last_of types_of
types_of-eq-nil u [] h = refl
types_of-eq-nil u (q ∷ l) h = ground (arith, types_of-eq-nil u l)

length-types_of-pos :
    (u : String) (l : List Change) (p : Change) → last_of u l ≡ some p → 1 ≤ length (types_of u l)
unfolding last_of types_of
length-types_of-pos u [] p h = ground arith
length-types_of-pos u (q ∷ l) p h = elim (Option-cases (last_of u l)) [
  | inl e ↦ ground arith
  | inr (x, e) ↦ ground (arith, length-types_of-pos u l x e)
]

-- A merged queue holds the hook of the last change alone.
pub types_of-eq-last :
    (u : String) (l : List Change) (p : Change)
    → last_of u l ≡ some p
    → length (types_of u l) ≤ 1
    → types_of u l ≡ p.change_type ∷ []
unfolding last_of types_of
types_of-eq-last u [] p h m = absurd (cc)
types_of-eq-last u (q ∷ l) p h m = elim (Option-cases (last_of u l)) [
  | inl e ↦ ground (arith, types_of-eq-nil u l e)
  | inr (x, e) ↦ ground (arith, length-types_of-pos u l x e, types_of-eq-last u l p)
]

texts_eq_refl : (xs : List String) → texts_eq xs xs ≡ true
texts_eq_refl [] = refl
texts_eq_refl (x ∷ xs) = ground (arith, eq_iff x x, texts_eq_refl xs)

pub change_eq_refl : (p : Change) → change_eq p p ≡ true
unfolding change_eq
change_eq_refl p = ground (arith, eq_iff p.unit_name p.unit_name, texts_eq_refl p.members)

pub change_eq-unit : (q p : Change) → change_eq q p ≡ true → q.unit_name ≡ p.unit_name
unfolding change_eq
change_eq-unit q p h = ground (arith, eq_iff q.unit_name p.unit_name)

-- What `pop(index(p))` takes out is a change of the same unit.
types_of-remove_ne :
    (u v : String) (l : List Change) (p : Change)
    → u ≢ v
    → last_of u l ≡ some p
    → types_of v (remove_at (index_of p l) l) ≡ types_of v l
unfolding last_of types_of remove_at index_of
types_of-remove_ne u v [] p uv h = absurd (cc)
types_of-remove_ne u v (q ∷ l) p uv h = elim (Option-cases (last_of u l)) [
  | inl e ↦ ground (arith, eq_iff q.unit_name u, eq_iff q.unit_name v, change_eq_refl q)
  | inr (x, e) ↦ ground (
    arith,
    eq_iff q.unit_name u,
    eq_iff q.unit_name v,
    change_eq-unit q p,
    last_of-unit u l p,
    types_of-remove_ne u v l p uv,
  )
]

length-remove_self :
    (u : String) (l : List Change) (p : Change)
    → last_of u l ≡ some p
    → suc (length (types_of u (remove_at (index_of p l) l))) ≡ length (types_of u l)
unfolding last_of types_of remove_at index_of
length-remove_self u [] p h = absurd (cc)
length-remove_self u (q ∷ l) p h = elim (Option-cases (last_of u l)) [
  | inl e ↦ ground (arith, eq_iff q.unit_name u, change_eq_refl q)
  | inr (x, e) ↦ ground (
    arith,
    eq_iff q.unit_name u,
    change_eq-unit q p,
    last_of-unit u l p,
    length-remove_self u l p,
  )
]

types_of-append :
    (u : String) (xs ys : List Change) → types_of u (xs ++ ys) ≡ types_of u xs ++ types_of u ys
unfolding types_of
types_of-append u [] ys = refl
types_of-append u (q ∷ xs) ys = elim (Bool-cases (str_eq q.unit_name u)) [
  | inl e ↦ rw (e, types_of-append u xs ys)
  | inr e ↦ rw (e, types_of-append u xs ys)
]

pub types_of-wipe : (u v : String) (l : List Change) → types_of v (wipe_member u l) ≡ types_of v l
unfolding wipe_member types_of
types_of-wipe u v [] = refl
types_of-wipe u v (q ∷ l) = elim (Bool-cases (contains u q.members)) [
  | inl e ↦ rw (e, types_of-wipe u v l)
  | inr e ↦ rw (e, types_of-wipe u v l)
]

pub remove_at-wipe :
    (u : String) (i : ℕ) (l : List Change)
    → remove_at i (wipe_member u l) ≡ wipe_member u (remove_at i l)
unfolding wipe_member remove_at
remove_at-wipe u zero [] = refl
remove_at-wipe u zero (q ∷ l) = refl
remove_at-wipe u (suc i) [] = refl
remove_at-wipe u (suc i) (q ∷ l) = rw (remove_at-wipe u i l)

nil_of_length : (types : List ChangeType) → length types ≤ 0 → types ≡ []
nil_of_length [] h = refl
nil_of_length (t ∷ types) h = absurd (omega arith)

-- How the queue's content changes when one unit's hooks become `types`.
pub record Becomes (u : String) (types : List ChangeType) (l l' : List Change) : Type 0 where
  pub own : types_of u l' ≡ types
  pub others : (v : String) → u ≢ v → types_of v l' ≡ types_of v l

pub Becomes-IsMerged :
    (u : String) (types : List ChangeType) (l l' : List Change)
    → Becomes u types l l'
    → length types ≤ 1
    → IsMerged l
    → IsMerged l'
Becomes-IsMerged u types l l' b short m v = elim (Bool-cases (str_eq u v)) [
  | inl e ↦ rw (← ((eq_iff u v).0 e), b.own) short
  | inr e ↦ rw (b.others v (λ same. false≢true (sym e ∙ (eq_iff u v).1 same))) (m v)
]

pub append-Becomes :
    (c : Change) (l l' : List Change)
    → types_of c.unit_name l' ≡ []
    → ((v : String) → c.unit_name ≢ v → types_of v l' ≡ types_of v l)
    → Becomes c.unit_name (c.change_type ∷ []) l (l' ++ c ∷ [])
unfolding types_of
append-Becomes c l l' own others = record {
  own = types_of-append c.unit_name l' (c ∷ []) ∙ rw (own, eq_refl c.unit_name);
  others = λ v apart.
      types_of-append v l' (c ∷ [])
      ∙ ground (arith, eq_iff c.unit_name v, others v apart, append-nil (types_of v l'));
}

-- The last change of a unit in a merged queue, and the queue without it.
module _ (u : String) (l : List Change) (p : Change) (m : IsMerged l)
    (found : last_of u l ≡ some p) where
  pub removed-own : types_of u (remove_at (index_of p l) l) ≡ []
  removed-own = nil_of_length _ (omega (arith, length-remove_self u l p found, m u))

  pub removed-others : (v : String) → u ≢ v → types_of v (remove_at (index_of p l) l) ≡ types_of v l
  removed-others v apart = types_of-remove_ne u v l p apart found
