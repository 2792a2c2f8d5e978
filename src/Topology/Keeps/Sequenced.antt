-- ===== src/Topology/Keeps/Sequenced.antt =====
-- The uniqueness of names, unit ids and sequence numbers, under the changes to the services.
use trusted_juju.Prelude.{ℕ, ◌≤◌, String, ◌≡◌, ◌≢◌, inl, inr, some, arith, sym, ◌∙◌}
use trusted_juju.Prelude.Dict.{
  Dict, lookup, insert, remove, IsDistinct, insert-IsDistinct, remove-IsDistinct, insert_cases,
  lookup_of_remove,
}
use trusted_juju.Topology.State.{Service, ServiceUnit}
use trusted_juju.Topology.Invariant.{AreSequenced, IsBelow}

module _ {services : Dict Service} {sequences : Dict ℕ} (w : AreSequenced services sequences) where
  pub remove-AreSequenced : (k : String) → AreSequenced (remove k services) sequences
  remove-AreSequenced k = record {
    distinct = remove-IsDistinct k services w.distinct;
    units_distinct = λ i s h. w.units_distinct i s (lookup_of_remove k i s services h).1;
    names_unique = λ i j s s' h h' e.
        w.names_unique i j s s' (lookup_of_remove k i s services h).1
          (lookup_of_remove k j s' services h').1 e;
    counted = λ i s h. w.counted i s (lookup_of_remove k i s services h).1;
    sequences_unique = λ i u v s unit unit' h.
        w.sequences_unique i u v s unit unit' (lookup_of_remove k i s services h).1;
    units_unique = λ i j u s s' unit unit' h h'.
        w.units_unique i j u s s' unit unit' (lookup_of_remove k i s services h).1
          (lookup_of_remove k j s' services h').1;
  }

  -- The counters may grow.
  pub grow-AreSequenced :
      (sequences' : Dict ℕ)
      → ((i : String) (s : Service) (n : ℕ)
          → lookup i services ≡ some s
          → lookup s.name sequences ≡ some n
          → (n' : ℕ) × (lookup s.name sequences' ≡ some n') × (n ≤ n'))
      → AreSequenced services sequences'
  grow-AreSequenced sequences' grows = record {
    distinct = w.distinct;
    units_distinct = w.units_distinct;
    names_unique = w.names_unique;
    counted = λ i s h.
        let (n, e, below) = w.counted i s h in
        let (n', e', le) = grows i s n h e in (n', e', λ u unit hu. omega (arith, below u unit hu));
    sequences_unique = w.sequences_unique;
    units_unique = w.units_unique;
  }

  -- A service is written under `k`, new or old: what it has to meet.
  pub insert-AreSequenced :
      (k : String) (s' : Service)
      → IsDistinct s'.units
      → ((j : String) (s : Service) → k ≢ j → lookup j services ≡ some s → s.name ≢ s'.name)
      → ((n : ℕ) × (lookup s'.name sequences ≡ some n) × IsBelow n s')
      → ((u v : String) (unit unit' : ServiceUnit)
          → lookup u s'.units ≡ some unit
          → lookup v s'.units ≡ some unit'
          → unit.sequence ≡ unit'.sequence
          → u ≡ v)
      → ((j u : String) (s : Service) (unit unit' : ServiceUnit)
          → k ≢ j
          → lookup j services ≡ some s
          → lookup u s'.units ≡ some unit
          → lookup u s.units ≢ some unit')
      → AreSequenced (insert k s' services) sequences
  insert-AreSequenced k s' d names n seqs apart = record {
    distinct = insert-IsDistinct k s' services w.distinct;
    units_distinct = λ i s h. elim (insert_cases k i s' s services h) [
      | inl (_, e) ↦ rw (← e) d
      | inr (_, h') ↦ w.units_distinct i s h'
    ];
    names_unique = λ i j s r h h' e. elim (insert_cases k i s' s services h) [
      | inl (ki, es) ↦ elim (insert_cases k j s' r services h') [
        | inl (kj, er) ↦ sym ki ∙ kj
        | inr (kj, hr) ↦ absurd (names j r kj hr (cc))
      ]
      | inr (ki, hs) ↦ elim (insert_cases k j s' r services h') [
        | inl (kj, er) ↦ absurd (names i s ki hs (cc))
        | inr (kj, hr) ↦ w.names_unique i j s r hs hr e
      ]
    ];
    counted = λ i s h. elim (insert_cases k i s' s services h) [
      | inl (_, e) ↦ rw (← e) n
      | inr (_, h') ↦ w.counted i s h'
    ];
    sequences_unique = λ i u v s unit unit' h. elim (insert_cases k i s' s services h) [
      | inl (_, e) ↦ rw (← e) (seqs u v unit unit')
      | inr (_, h') ↦ w.sequences_unique i u v s unit unit' h'
    ];
    units_unique = λ i j u s r unit unit' h h' hu hu'. elim (insert_cases k i s' s services h) [
      | inl (ki, es) ↦ elim (insert_cases k j s' r services h') [
        | inl (kj, er) ↦ sym ki ∙ kj
        | inr (kj, hr) ↦ absurd (apart j u r unit unit' kj hr (cc) hu')
      ]
      | inr (ki, hs) ↦ elim (insert_cases k j s' r services h') [
        | inl (kj, er) ↦ absurd (apart i u s unit' unit ki hs (cc) hu)
        | inr (kj, hr) ↦ w.units_unique i j u s r unit unit' hs hr hu hu'
      ]
    ];
  }
