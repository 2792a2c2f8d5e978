-- ===== src/Topology/History.antt =====
-- The callers of juju/state/topology.py as a sequence of calls: a call that raises leaves the
-- topology that is stored as it was.
use trusted_juju.Prelude.{
  ◌≡◌, String, Option, List, [], ◌∷◌, Result, ok, raise, ◌>>=◌, Result-cases, >>=-eq-ok, inl, inr,
}
use trusted_juju.Prelude.Dict.{lookup-empty}
use trusted_juju.Topology.State.{Topology, Error, initial}
use trusted_juju.Topology.Invariant.{IsWellFormed}
use trusted_juju.Topology.Machine
use trusted_juju.Topology.Service
use trusted_juju.Topology.Relation
use trusted_juju.Topology.Member
use trusted_juju.Topology.Keeps.Operations.{
  add_machine-IsWellFormed, remove_machine-IsWellFormed, add_service-IsWellFormed,
  remove_service-IsWellFormed,
}
use trusted_juju.Topology.Keeps.Relations.{
  add_relation-IsWellFormed, remove_relation-IsWellFormed, assign_service_to_relation-IsWellFormed,
  unassign_service_from_relation-IsWellFormed,
}
use trusted_juju.Topology.Keeps.Units.{
  add_service_unit-IsWellFormed, remove_service_unit-IsWellFormed,
  assign_service_unit_to_machine-IsWellFormed, unassign_service_unit_from_machine-IsWellFormed,
}

pub data Call : Type 0 where
  add_machine : String → Call
  remove_machine : String → Call
  add_service : String → String → Call
  remove_service : String → Call
  add_service_unit : String → String → Option String → Call
  remove_service_unit : String → String → Call
  assign_service_unit_to_machine : String → String → String → Call
  unassign_service_unit_from_machine : String → String → Call
  add_relation : String → String → String → Call
  remove_relation : String → Call
  assign_service_to_relation : String → String → String → String → Call
  unassign_service_from_relation : String → String → Call

unfoldable pub apply : Call → Topology → Result Error Topology
apply (add_machine m) t = Machine.add_machine m t
apply (remove_machine m) t = Machine.remove_machine m t
apply (add_service k n) t = Service.add_service k n t
apply (remove_service k) t = Service.remove_service k t
apply (add_service_unit k u c) t = Member.add_service_unit k u c t >>= λ (t', _). ok t'
apply (remove_service_unit k u) t = Member.remove_service_unit k u t
apply (assign_service_unit_to_machine k u m) t = Member.assign_service_unit_to_machine k u m t
apply (unassign_service_unit_from_machine k u) t = Member.unassign_service_unit_from_machine k u t
apply (add_relation r interface scope) t = Relation.add_relation r interface scope t
apply (remove_relation r) t = Relation.remove_relation r t
apply (assign_service_to_relation r k name role) t =
    Relation.assign_service_to_relation r k name role t
apply (unassign_service_from_relation r k) t = Relation.unassign_service_from_relation r k t

abbrev pub or_keep : Result Error Topology → Topology → Topology
or_keep (ok t') t = t'
or_keep (raise e) t = t

unfoldable pub run : List Call → Topology → Topology
unfolding apply
run [] t = t
run (c ∷ calls) t = run calls (or_keep (apply c t) t)

pub apply-IsWellFormed :
    (c : Call) (t t' : Topology) → apply c t ≡ ok t' → IsWellFormed t → IsWellFormed t'
unfolding apply
apply-IsWellFormed (add_machine m) t t' h = add_machine-IsWellFormed m t t' h
apply-IsWellFormed (remove_machine m) t t' h = remove_machine-IsWellFormed m t t' h
apply-IsWellFormed (add_service k n) t t' h = add_service-IsWellFormed k n t t' h
apply-IsWellFormed (remove_service k) t t' h = remove_service-IsWellFormed k t t' h
apply-IsWellFormed (add_service_unit k u c) t t' h =
    let ((t1, n), e, e') = >>=-eq-ok (Member.add_service_unit k u c t) (λ (t', _). ok t') h in
    add_service_unit-IsWellFormed k u c n t t' (cc)
apply-IsWellFormed (remove_service_unit k u) t t' h = remove_service_unit-IsWellFormed k u t t' h
apply-IsWellFormed (assign_service_unit_to_machine k u m) t t' h =
    assign_service_unit_to_machine-IsWellFormed k u m t t' h
apply-IsWellFormed (unassign_service_unit_from_machine k u) t t' h =
    unassign_service_unit_from_machine-IsWellFormed k u t t' h
apply-IsWellFormed (add_relation r interface scope) t t' h =
    add_relation-IsWellFormed r interface scope t t' h
apply-IsWellFormed (remove_relation r) t t' h = remove_relation-IsWellFormed r t t' h
apply-IsWellFormed (assign_service_to_relation r k name role) t t' h =
    assign_service_to_relation-IsWellFormed r k name role t t' h
apply-IsWellFormed (unassign_service_from_relation r k) t t' h =
    unassign_service_from_relation-IsWellFormed r k t t' h

initial-IsWellFormed : IsWellFormed initial
unfolding initial
initial-IsWellFormed = record {
  sequenced = record {
    distinct = tt;
    units_distinct = λ i s h. absurd (lookup-empty i s h);
    names_unique = λ i j s s' h _ _. absurd (lookup-empty i s h);
    counted = λ i s h. absurd (lookup-empty i s h);
    sequences_unique = λ i u v s unit unit' h _ _ _. absurd (lookup-empty i s h);
    units_unique = λ i j u s s' unit unit' h _ _ _. absurd (lookup-empty i s h);
  };
  hosted = record { hosted = λ i u m s unit h _ _. absurd (lookup-empty i s h) };
  related = record {
    distinct = tt;
    known = λ r i rel m h _. absurd (lookup-empty r rel h);
    roles_unique = λ r i j rel m m' h _ _ _. absurd (lookup-empty r rel h);
  };
}

run_from-IsWellFormed :
    (calls : List Call) (t : Topology) → IsWellFormed t → IsWellFormed (run calls t)
unfolding run
run_from-IsWellFormed [] t w = w
run_from-IsWellFormed (c ∷ calls) t w =
    run_from-IsWellFormed calls (or_keep (apply c t) t) (elim (Result-cases (apply c t)) [
      | inl (t', e) ↦ rw e (apply-IsWellFormed c t t' e w)
      | inr (x, e) ↦ rw e w
    ])

-- Whatever is called, in whatever order, on a fresh topology, and whichever calls raise: names,
-- unit ids and sequence numbers stay unique, every unit is on a registered machine or on none,
-- and every relation joins registered services in different roles.
pub run-IsWellFormed : (calls : List Call) → IsWellFormed (run calls initial)
run-IsWellFormed calls = run_from-IsWellFormed calls initial initial-IsWellFormed
