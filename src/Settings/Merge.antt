-- ===== src/Settings/Merge.antt =====
-- juju/state/utils.py: what `write` makes of a node that others wrote to since it was read.
use trusted_juju.Prelude.{
  Bool, true, false, String, Option, none, some, List, [], ◌∷◌, if◌then◌else◌, ok, ◌≡◌, refl, sym,
  ap, ◌∙◌, ◌⊎◌, inl, inr, arith, str_eq, eq_iff,
}
use trusted_juju.Prelude.Dict.{Dict, lookup, keys, lookup-insert, lookup-remove}
use trusted_juju.Prelude.Sets.{
  contains, difference, contains-append, contains-difference, has_key-keys,
}
use trusted_juju.Settings.Buffer.{
  Item, YamlState, union_keys, apply_change, apply_keys, content_or, apply_changes, write,
  check_read,
}

module _ {V : Type 0} (eq : V → V → Bool) where
  -- What a key holds after a write: the own value where it was changed since the read, and what the
  -- node holds otherwise.
  unfoldable pub merged : (old new current : Option V) → Option V
  merged none none current = current
  merged none (some new) current = some new
  merged (some old) (some new) current = if eq old new then current else some new
  merged (some old) none current = none

  apply_change-lookup :
      (key k : String) (old new : Option V) (r : Dict V × List (Item V))
      → lookup k (apply_change eq key old new r).0
        ≡ (if str_eq key k then merged old new (lookup k r.0) else lookup k r.0)
  unfolding apply_change merged
  apply_change-lookup key k none none r = ground arith
  apply_change-lookup key k none (some new) r = ground (arith, lookup-insert key k new r.0)
  apply_change-lookup key k (some old) (some new) r = ground (arith, lookup-insert key k new r.0)
  apply_change-lookup key k (some old) none r =
      ground (arith, lookup-remove key k r.0, eq_iff key k)

  merged-merged :
      (old new current : Option V)
      → merged old new (merged old new current) ≡ merged old new current
  unfolding merged
  merged-merged none none current = refl
  merged-merged none (some new) current = refl
  merged-merged (some old) (some new) current = ground arith
  merged-merged (some old) none current = refl

  apply_keys-lookup :
      (more : List String) (k : String) (p c : Dict V) (r : Dict V × List (Item V))
      → lookup k (apply_keys eq more p c r).0 ≡ (
          if contains k more then merged (lookup k p) (lookup k c) (lookup k r.0) else lookup k r.0)
  unfolding apply_keys contains
  apply_keys-lookup [] k p c r = refl
  apply_keys-lookup (key ∷ more) k p c r = ground (
    arith,
    eq_iff key k,
    apply_keys-lookup more k p c (apply_change eq key (lookup key p) (lookup key c) r),
    apply_change-lookup key k (lookup key p) (lookup key c) r,
    merged-merged (lookup k p) (lookup k c) (lookup k r.0),
  )

  merged_absent :
      (k : String) (p c : Dict V) (current : Option V)
      → contains k (union_keys p c) ≡ false
      → merged (lookup k p) (lookup k c) current ≡ current
  unfolding merged union_keys
  merged_absent k p c current h = ground (
    arith,
    contains-append k (keys p) (difference (keys c) (keys p)),
    contains-difference k (keys c) (keys p),
    has_key-keys k p,
    has_key-keys k c,
  )

  pub apply_changes-lookup :
      (p c : Dict V) (content : Option (Dict V)) (k : String)
      → lookup k (apply_changes eq p c content).0
        ≡ merged (lookup k p) (lookup k c) (lookup k (content_or content))
  unfolding apply_changes
  apply_changes-lookup p c content k = ground (
    arith,
    apply_keys-lookup (union_keys p c) k p c (content_or content, []),
    merged_absent k p c (lookup k (content_or content)),
  )

  -- After a `read`, a write succeeds, whatever the node holds by then: each key holds what the buffer
  -- holds for it where that differs from what was read, and what the node held otherwise. The buffer
  -- stays, and the next write starts from it.
  pub write-lookup :
      (content : Option (Dict V)) (s : YamlState V) (p : Dict V)
      → s.pristine_cache ≡ some p
      → (s' : YamlState V) × (node : Dict V) × (changes : List (Item V)) × (write eq content s
          ≡ ok (s', (node, changes)))
        × ((k : String)
            → lookup k node
              ≡ merged (lookup k p) (lookup k s.cache) (lookup k (content_or content)))
        × (s'.cache ≡ s.cache)
        × (s'.pristine_cache ≡ some s.cache)
  unfolding write check_read
  write-lookup content s p h =
      let r = apply_changes eq p s.cache content in
      (
        record s { pristine_cache = some s.cache },
        r.0,
        r.1,
        ground arith,
        apply_changes-lookup p s.cache content,
        refl,
        refl,
      )

  -- The writer leaves the key alone.
  unfoldable pub untouched : (old new : Option V) → Bool
  untouched none none = true
  untouched none (some new) = false
  untouched (some old) (some new) = eq old new
  untouched (some old) none = false

  merged-untouched :
      (old new current : Option V) → untouched old new ≡ true → merged old new current ≡ current
  unfolding merged untouched
  merged-untouched none none current h = refl
  merged-untouched none (some new) current h = absurd (ground arith)
  merged-untouched (some old) (some new) current h = ground arith
  merged-untouched (some old) none current h = absurd (ground arith)

  merged_comm :
      (o1 n1 o2 n2 current : Option V)
      → (untouched o1 n1 ≡ true) ⊎ (untouched o2 n2 ≡ true)
      → merged o2 n2 (merged o1 n1 current) ≡ merged o1 n1 (merged o2 n2 current)
  merged_comm o1 n1 o2 n2 current (inl h) =
      ap (merged o2 n2) (merged-untouched o1 n1 current h)
      ∙ sym (merged-untouched o1 n1 (merged o2 n2 current) h)
  merged_comm o1 n1 o2 n2 current (inr h) =
      merged-untouched o2 n2 (merged o1 n1 current) h
      ∙ sym (ap (merged o1 n1) (merged-untouched o2 n2 current h))

  -- Two agents that read the same node or different versions of it write their changes one after the
  -- other. A key that at most one of them changed ends up the same whichever writes first.
  pub apply_changes_comm :
      (p1 c1 p2 c2 : Dict V) (content : Option (Dict V)) (k : String)
      → (untouched (lookup k p1) (lookup k c1) ≡ true)
        ⊎ (untouched (lookup k p2) (lookup k c2) ≡ true)
      → lookup k (apply_changes eq p2 c2 (some (apply_changes eq p1 c1 content).0)).0
        ≡ lookup k (apply_changes eq p1 c1 (some (apply_changes eq p2 c2 content).0)).0
  apply_changes_comm p1 c1 p2 c2 content k h =
      let one = apply_changes-lookup p1 c1 content k in
      let two = apply_changes-lookup p2 c2 content k in
      let comm =
        merged_comm (lookup k p1) (lookup k c1) (lookup k p2) (lookup k c2)
          (lookup k (content_or content)) h in
      apply_changes-lookup p2 c2 (some (apply_changes eq p1 c1 content).0) k
      ∙ ap (merged (lookup k p2) (lookup k c2)) one
      ∙ comm
      ∙ sym (ap (merged (lookup k p1) (lookup k c1)) two)
      ∙ sym (apply_changes-lookup p1 c1 (some (apply_changes eq p2 c2 content).0) k)

  merged_alone :
      ((a b : V) → eq a b ≡ true → a ≡ b) → (old new : Option V) → merged old new old ≡ new
  unfolding merged
  merged_alone sound none none = refl
  merged_alone sound none (some new) = refl
  merged_alone sound (some old) (some new) = ground (arith, sound old new)
  merged_alone sound (some old) none = refl

  -- Where equal values are the same and nobody wrote to the node since it was read, the node holds
  -- after a write exactly what the buffer holds.
  pub apply_changes_alone :
      (p c : Dict V) (content : Option (Dict V)) (k : String)
      → ((a b : V) → eq a b ≡ true → a ≡ b)
      → content_or content ≡ p
      → lookup k (apply_changes eq p c content).0 ≡ lookup k c
  apply_changes_alone p c content k sound e =
      apply_changes-lookup p c content k
      ∙ ap (λ d. merged (lookup k p) (lookup k c) (lookup k d)) e
      ∙ merged_alone sound (lookup k p) (lookup k c)
