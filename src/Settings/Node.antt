-- ===== src/Settings/Node.antt =====
-- juju/state/utils.py, `YAMLStateNodeMixin`: single values of a node.
use trusted_juju.Prelude.{Bool, true, String, some, ok, ◌≡◌, ◌≢◌, refl, ◌∙◌, arith, eq_iff}
use trusted_juju.Prelude.Dict.{Dict, lookup, insert, lookup-insert}
use trusted_juju.Settings.Buffer.{
  Error, new_state, read, check_read, set_item, write, apply_changes, get_node_value,
  set_node_value,
}
use trusted_juju.Settings.Merge.{apply_changes_alone}

module _ {V : Type 0} (eq : V → V → Bool) where
  set_node_value-apply :
      (missing : Error) (key : String) (value : V) (node : Dict V)
      → set_node_value eq missing key value (some node)
        ≡ ok (apply_changes eq node (insert key value node) (some node)).0
  unfolding set_node_value read new_state set_item check_read write
  set_node_value-apply missing key value node = refl

  get_node_value-eq :
      (missing : Error) (key : String) (default value : V) (node : Dict V)
      → lookup key node ≡ some value
      → get_node_value missing key default (some node) ≡ ok value
  unfolding get_node_value read new_state
  get_node_value-eq missing key default value node h = ground arith

  -- Where equal values are the same, a value that is set in a node that nobody else writes to is read
  -- back, and the other keys hold what they held.
  pub get_node_value-set :
      (missing : Error) (key : String) (value default : V) (node : Dict V)
      → ((a b : V) → eq a b ≡ true → a ≡ b)
      → (after : Dict V) × (set_node_value eq missing key value (some node) ≡ ok after)
        × (get_node_value missing key default (some after) ≡ ok value)
        × ((k : String) → key ≢ k → lookup k after ≡ lookup k node)
  get_node_value-set missing key value default node sound =
      let buffer = insert key value node in
      let after = (apply_changes eq node buffer (some node)).0 in
      let alone = λ (k : String). apply_changes_alone eq node buffer (some node) k sound refl in
      (
        after,
        set_node_value-apply missing key value node,
        get_node_value-eq missing key default value after
            (alone key ∙ ground (arith, lookup-insert key key value node, eq_iff key key)),
        λ k apart. alone k ∙ ground (arith, lookup-insert key k value node, eq_iff key k),
      )
