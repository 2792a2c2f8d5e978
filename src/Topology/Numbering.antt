-- ===== src/Topology/Numbering.antt =====
-- juju/state/topology.py: the "unit-sequence" counters, which outlive units and services.
use trusted_juju.Prelude.{
  ℕ, ◌+◌, ◌≤◌, ◌<◌, String, ◌≡◌, sym, ◌∙◌, inl, inr, some, List, [], ◌∷◌, Option, arith, eq_iff,
  str_eq, Bool-cases, ok, >>=-eq-ok, Result-cases,
}
use trusted_juju.Prelude.Dict.{Dict, lookup, insert, lookup-insert}
use trusted_juju.Topology.State.{Topology}
use trusted_juju.Topology.Service.{get_service_name, default_sequence}
use trusted_juju.Topology.Member.{add_service_unit}
use trusted_juju.Topology.History.{Call, apply, run, or_keep}
use trusted_juju.Topology.Keeps.Operations.{
  add_machine-eq-ok, remove_machine-eq-ok, add_service-eq-ok, remove_service-eq-ok,
}
use trusted_juju.Topology.Keeps.Units.{add_service_unit-eq-ok, remove_service_unit-eq-ok}
use trusted_juju.Topology.Keeps.Units
use trusted_juju.Topology.Keeps.Relations
use trusted_juju.Topology.Keeps.Relations.{add_relation-eq-ok, remove_relation-eq-ok}

-- The counter of the name is at least `n`.
abbrev CountsFrom : String → ℕ → Dict ℕ → Type 0
CountsFrom name n sequences = (m : ℕ) × (lookup name sequences ≡ some m) × (n ≤ m)

raise_count :
    (name other : String) (n m : ℕ) (sequences : Dict ℕ)
    → CountsFrom name n sequences
    → lookup other sequences ≡ some m
    → CountsFrom name n (insert other (m + 1) sequences)
raise_count name other n m sequences (x, e, le) h = elim (Bool-cases (str_eq other name)) [
  | inl same ↦ (
    m + 1,
    ground (arith, lookup-insert other name (m + 1) sequences),
    ground (arith, eq_iff other name),
  )
  | inr apart ↦ (x, ground (arith, lookup-insert other name (m + 1) sequences), le)
]

default_count :
    (name other : String) (n : ℕ) (sequences : Dict ℕ)
    → CountsFrom name n sequences
    → CountsFrom name n (default_sequence other sequences)
default_count name other n sequences (x, e, le) =
    (x, ground (arith, lookup-insert other name 0 sequences, eq_iff other name), le)

-- No call lowers a counter.
apply-CountsFrom :
    (c : Call) (t t' : Topology) (name : String) (n : ℕ)
    → apply c t ≡ ok t'
    → CountsFrom name n t.unit_sequence
    → CountsFrom name n t'.unit_sequence
unfolding apply
apply-CountsFrom (Call.add_machine m) t t' name n h c = rw (add_machine-eq-ok m t t' h) c
apply-CountsFrom (Call.remove_machine m) t t' name n h c = rw ((remove_machine-eq-ok m t t' h).1) c
apply-CountsFrom (Call.add_service k s) t t' name n h c =
    rw ((add_service-eq-ok k s t t' h).2) (default_count name s n t.unit_sequence c)
apply-CountsFrom (Call.remove_service k) t t' name n h c = rw ((remove_service-eq-ok k t t' h).1) c
apply-CountsFrom (Call.add_service_unit k u p) t t' name n h c =
    let ((t1, m), e, e') = >>=-eq-ok (add_service_unit k u p t) (λ (t', _). ok t') h in
    let (s, _, _, hm, e1) = add_service_unit-eq-ok k u t t' p m (cc) in
    rw e1 (raise_count name s.name n m t.unit_sequence c hm)
apply-CountsFrom (Call.remove_service_unit k u) t t' name n h c =
    let (s, _, e) = remove_service_unit-eq-ok k u t t' h in rw e c
apply-CountsFrom (Call.assign_service_unit_to_machine k u m) t t' name n h c =
    let (s, unit, _, _, _, _, e) = Units.assign-eq-ok k u t t' m h in rw e c
apply-CountsFrom (Call.unassign_service_unit_from_machine k u) t t' name n h c =
    let (s, unit, _, _, e) = Units.unassign-eq-ok k u t t' h in rw e c
apply-CountsFrom (Call.add_relation r interface scope) t t' name n h c =
    rw (add_relation-eq-ok r r t t' interface scope h) c
apply-CountsFrom (Call.remove_relation r) t t' name n h c = rw (remove_relation-eq-ok r r t t' h) c
apply-CountsFrom (Call.assign_service_to_relation r k s role) t t' name n h c =
    let (rel, _, _, _, e) = Relations.assign-eq-ok r k t t' s role h in rw e c
apply-CountsFrom (Call.unassign_service_from_relation r k) t t' name n h c =
    let (rel, _, e) = Relations.unassign-eq-ok r k t t' h in rw e c

run-CountsFrom :
    (calls : List Call) (t : Topology) (name : String) (n : ℕ)
    → CountsFrom name n t.unit_sequence
    → CountsFrom name n (run calls t).unit_sequence
unfolding run
run-CountsFrom [] t name n h = h
run-CountsFrom (c ∷ calls) t name n h =
    run-CountsFrom calls (or_keep (apply c t) t) name n (elim (Result-cases (apply c t)) [
      | inl (t', e) ↦ rw e (apply-CountsFrom c t t' name n e h)
      | inr (x, e) ↦ rw e h
    ])

-- A unit that is added later, to a service of the same name, has a larger sequence number, and so
-- another unit name, whatever calls (removals of the unit and of the service too) come between.
pub add_service_unit_never_reuses :
    (calls : List Call) (k k' u u' : String) (c c' : Option String) (name : String) (n n' : ℕ)
    (t t1 t2 : Topology)
    → get_service_name k t ≡ ok name
    → add_service_unit k u c t ≡ ok (t1, n)
    → get_service_name k' (run calls t1) ≡ ok name
    → add_service_unit k' u' c' (run calls t1) ≡ ok (t2, n')
    → n < n'
unfolding get_service_name
add_service_unit_never_reuses calls k k' u u' c c' name n n' t t1 t2 hk h hk' h' =
    let (s, hs, _, hn, e) = add_service_unit-eq-ok k u t t1 c n h in
    let (s', hs', _, hn', _) = add_service_unit-eq-ok k' u' (run calls t1) t2 c' n' h' in
    let same : s.name ≡ name = ground arith in
    let same' : s'.name ≡ name = ground arith in
    let counted : CountsFrom name (n + 1) t1.unit_sequence = rw e (
      n + 1,
      ground (arith, lookup-insert s.name name (n + 1) t.unit_sequence, eq_iff s.name name),
      omega arith,
    ) in
    let (m, hm, le) = run-CountsFrom calls t1 name (n + 1) counted in
    let last : some m ≡ some n' = sym hm ∙ rw same' at hn' in ground arith
