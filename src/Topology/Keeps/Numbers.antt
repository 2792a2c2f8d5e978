-- ===== src/Topology/Keeps/Numbers.antt =====
-- The sequence numbers of a service under the changes to its units.
use trusted_juju.Prelude.{
  ℕ, ◌+◌, ◌<◌, String, ◌≡◌, refl, inl, inr, false, some, arith, eq_iff, str_eq, sym, ◌∙◌, ap,
  Bool-cases,
}
use trusted_juju.Prelude.Dict.{
  Dict, lookup, insert, IsDistinct, insert-IsDistinct, lookup-insert, insert_cases, any_value,
  any_value-eq-false,
}
use trusted_juju.Topology.State.{Service, ServiceUnit}
use trusted_juju.Topology.Invariant.{AreSequenced, IsBelow}
use trusted_juju.Topology.Member.{has_unit}
use trusted_juju.Topology.Keeps.Sequenced.{grow-AreSequenced, insert-AreSequenced}

-- A service whose units change their machine only, or go, keeps the numbering.
module _ {services : Dict Service} {sequences : Dict ℕ} (w : AreSequenced services sequences) where
  pub shrink-AreSequenced :
      (k : String) (s : Service) (units : Dict ServiceUnit)
      → lookup k services ≡ some s
      → IsDistinct units
      → ((v : String) (unit' : ServiceUnit)
          → lookup v units ≡ some unit'
          → (unit : ServiceUnit) × (lookup v s.units ≡ some unit)
            × (unit.sequence ≡ unit'.sequence))
      → AreSequenced (insert k (record s { units = units }) services) sequences
  shrink-AreSequenced k s units hs d old =
      insert-AreSequenced w k (record s { units = units }) d
        (λ j r kj hr e. kj (w.names_unique k j s r hs hr (sym e)))
        (let (n, e, below) = w.counted k s hs in
          (
            n,
            e,
            λ v unit' hv. let (unit, hu, same) = old v unit' hv in omega (arith, below v unit hu),
          ))
        (λ v v' x x' hv hv' e.
          let (y, hy, same) = old v x hv in
          let (y', hy', same') = old v' x' hv' in
          w.sequences_unique k v v' s y y' hs hy hy' (same ∙ e ∙ sym same'))
        (λ j v r x x' kj hr hv hv'.
          let (y, hy, same) = old v x hv in kj (w.units_unique k j v s r y x' hs hr hy hv'))

  -- A unit whose machine is rewritten.
  pub rehost-AreSequenced :
      (k u : String) (s : Service) (unit unit' : ServiceUnit)
      → lookup k services ≡ some s
      → lookup u s.units ≡ some unit
      → unit.sequence ≡ unit'.sequence
      → AreSequenced (insert k (record s { units = insert u unit' s.units }) services) sequences
  rehost-AreSequenced k u s unit unit' hs hu same =
      shrink-AreSequenced k s (insert u unit' s.units) hs
        (insert-IsDistinct u unit' s.units (w.units_distinct k s hs))
        (λ v x hv. elim (insert_cases u v unit' x s.units hv) [
          | inl (uv, ex) ↦ (unit, rw uv at hu, rw ex at same)
          | inr (_, hx) ↦ (x, hx, refl)
        ])

-- The counter of one name goes up by one.
bump-AreSequenced :
    {services : Dict Service} {sequences : Dict ℕ} (name : String) (n : ℕ)
    → lookup name sequences ≡ some n
    → AreSequenced services sequences
    → AreSequenced services (insert name (n + 1) sequences)
bump-AreSequenced {sequences = sequences} name n e w =
    grow-AreSequenced w (insert name (n + 1) sequences) (λ i s m h hm.
      elim (Bool-cases (str_eq name s.name)) [
        | inl same ↦ (
          n + 1,
          ground (arith, lookup-insert name s.name (n + 1) sequences),
          ground (arith, eq_iff name s.name),
        )
        | inr other ↦ (m, ground (arith, lookup-insert name s.name (n + 1) sequences), omega arith)
      ])

-- The new unit's number is the counter, which is above every number of the service.
pub enlist-AreSequenced :
    {services : Dict Service} {sequences : Dict ℕ} (k u : String) (s : Service) (new : ServiceUnit)
    → lookup k services ≡ some s
    → lookup s.name sequences ≡ some new.sequence
    → any_value (has_unit u) services ≡ false
    → AreSequenced services sequences
    → AreSequenced
        (insert k (record s { units = insert u new s.units }) services)
        (insert s.name (new.sequence + 1) sequences)
enlist-AreSequenced {services} {sequences} k u s new hs hn fresh w =
    let n = new.sequence in
    let below = counted_below hs hn in
    let up = bump-AreSequenced s.name n hn w in
    insert-AreSequenced up k (record s { units = insert u new s.units })
      (insert-IsDistinct u new s.units (w.units_distinct k s hs))
      (λ j r kj hr e. kj (w.names_unique k j s r hs hr (sym e)))
      (
        n + 1,
        ground (arith, lookup-insert s.name s.name (n + 1) sequences, eq_iff s.name s.name),
        λ v x hv. elim (insert_cases u v new x s.units hv) [
          | inl (_, ex) ↦ rw (← ex) (omega arith)
          | inr (_, hx) ↦ omega (arith, below v x hx)
        ],
      )
      (λ v v' x x' hv hv' e. elim (insert_cases u v new x s.units hv) [
        | inl (uv, ex) ↦ elim (insert_cases u v' new x' s.units hv') [
          | inl (uv', _) ↦ sym uv ∙ uv'
          | inr (_, hx') ↦
              absurd (ne_of_below (below v' x' hx') (ap (λ (y : ServiceUnit). y.sequence) ex ∙ e))
        ]
        | inr (_, hx) ↦ elim (insert_cases u v' new x' s.units hv') [
          | inl (_, ex') ↦
              absurd (ne_of_below (below v x hx) (ap (λ (y : ServiceUnit). y.sequence) ex' ∙ sym e))
          | inr (_, hx') ↦ w.sequences_unique k v v' s x x' hs hx hx' e
        ]
      ])
      (λ j v r x x' kj hr hv hv'. elim (insert_cases u v new x s.units hv) [
        | inl (uv, _) ↦ taken_elsewhere j r x' hr (rw (← uv) at hv')
        | inr (_, hx) ↦ kj (w.units_unique k j v s r x x' hs hr hx hv')
      ])
  where
    counted_below :
        lookup k services ≡ some s
        → lookup s.name sequences ≡ some new.sequence
        → IsBelow new.sequence s
    counted_below hs hn =
        let (m, e, below) = w.counted k s hs in
        λ v x hv. let same : some m ≡ some new.sequence = sym e ∙ hn in ground (arith, below v x hv)

    ne_of_below : {a b : ℕ} → a < b → b ≡ a → ⊥
    ne_of_below h e = omega arith

    taken_elsewhere :
        (j : String) (r : Service) (x : ServiceUnit)
        → lookup j services ≡ some r
        → lookup u r.units ≡ some x
        → ⊥
    taken_elsewhere j r x hr hx =
        ground (arith, any_value-eq-false (has_unit u) services j r fresh hr)
