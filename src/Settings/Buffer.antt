-- ===== src/Settings/Buffer.antt =====
-- juju/state/utils.py: `dict_merge` and `YAMLState`. The values of a dict are of any type, with
-- Python's `==` of them as a parameter. The ZooKeeper node is an argument: `none` where there is
-- none. `retry_change` (of txzookeeper) calls `apply_changes` with the node's content at the time
-- that the change takes, which is the content that `write` is given here.
use trusted_juju.Prelude.{
  Bool, true, ◌&&◌, String, Option, none, some, List, [], ◌∷◌, ◌++◌, if◌then◌else◌, Result, ok,
  raise, ◌>>=◌, ◌>>◌, check,
}
use trusted_juju.Prelude.Dict.{Dict, lookup, insert, remove, has_key, keys}
use trusted_juju.Prelude.Sets.{difference}

-- `ValueError` before a `read`, `KeyError`, `StateNotFound`, `StateChanged`
pub data Error : Type 0 where
  value_error state_not_found state_changed : Error
  key_error : String → Error

-- `DeletedItem`, `ModifiedItem`, `AddedItem`
pub data Item (V : Type 0) : Type 0 where
  deleted_item : String → V → Item V
  modified_item : String → V → V → Item V
  added_item : String → V → Item V

pub record YamlState (V : Type 0) : Type 0 where
  pub pristine_cache : Option (Dict V)
  pub cache : Dict V

module _ {V : Type 0} where
  -- `d.update(d2)`
  unfoldable pub update : Dict V → Dict V → Dict V
  update d [] = d
  update d ((k, v) ∷ more) = update (insert k v d) more

  -- `__init__`
  unfoldable pub new_state : YamlState V
  new_state = record { pristine_cache = none; cache = [] }

  -- The state that is left, and the exception, if any. A node with no data reads as an empty dict.
  unfoldable pub read : Bool → Option (Dict V) → YamlState V → YamlState V × Result Error (Unit {0})
  read required (some content) s =
      (record { pristine_cache = some content; cache = content }, ok tt)
  read required none s = (
    record { pristine_cache = some []; cache = [] },
    if required then raise state_not_found else ok tt,
  )

  -- `_check`
  unfoldable pub check_read : YamlState V → Result Error (Dict V)
  check_read s = elim (s.pristine_cache) [ none ↦ raise value_error | some p ↦ ok p ]

  unfoldable pub get_item : String → YamlState V → Result Error V
  get_item key s = check_read s >>= λ _. elim (lookup key s.cache) [
    | none ↦ raise (key_error key)
    | some v ↦ ok v
  ]

  unfoldable pub set_item : String → V → YamlState V → Result Error (YamlState V)
  set_item key value s = check_read s >>= λ _. ok (record s { cache = insert key value s.cache })

  unfoldable pub del_item : String → YamlState V → Result Error (YamlState V)
  del_item key s = check_read s >>= λ _.
      check (has_key key s.cache) (key_error key) >> ok (record s { cache = remove key s.cache })

  -- `set(pristine_cache).union(cache)`
  unfoldable pub union_keys : Dict V → Dict V → List String
  union_keys pristine cache = keys pristine ++ difference (keys cache) (keys pristine)

  -- `yaml.load(content) if content else {}`
  abbrev pub content_or : Option (Dict V) → Dict V
  content_or none = []
  content_or (some content) = content

  -- `YAMLStateNodeMixin._get_node_value`, with `DictMixin.get`. The `_node_missing` of the class that
  -- mixes it in raises an exception, `missing`.
  unfoldable pub get_node_value : Error → String → V → Option (Dict V) → Result Error V
  get_node_value missing key default content =
      let (s, result) = read true content new_state in
      elim result [
        | raise e ↦ raise missing
        | ok _ ↦ elim (lookup key s.cache) [ none ↦ ok default | some v ↦ ok v ]
      ]

module _ {V : Type 0} (eq : V → V → Bool) where
  -- `for k in must_match: if not d1[k] == d2[k]`
  unfoldable pub values_match : Dict V → Dict V → Bool
  values_match [] d2 = true
  values_match ((k, v) ∷ d1) d2 = elim (lookup k d2) [
    | none ↦ values_match d1 d2
    | some w ↦ eq v w && values_match d1 d2
  ]

  unfoldable pub dict_merge : Dict V → Dict V → Result Error (Dict V)
  dict_merge d1 d2 =
      if values_match d1 d2 then ok (update (update [] d1) d2) else raise state_changed

  -- The body of the loop of `apply_changes`, with the key's old and new value, `none` for `missing`.
  unfoldable pub apply_change :
      String → Option V → Option V → Dict V × List (Item V) → Dict V × List (Item V)
  apply_change key none none (current, changes) = (current, changes)
  apply_change key none (some new) (current, changes) =
      (insert key new current, changes ++ added_item key new ∷ [])
  apply_change key (some old) (some new) (current, changes) =
      if eq old new
      then (current, changes)
      else (insert key new current, changes ++ modified_item key old new ∷ [])
  apply_change key (some old) none (current, changes) =
      if has_key key current
      then (remove key current, changes ++ deleted_item key old ∷ [])
      else (current, changes)

  unfoldable pub apply_keys :
      List String → Dict V → Dict V → Dict V × List (Item V) → Dict V × List (Item V)
  apply_keys [] pristine cache r = r
  apply_keys (key ∷ more) pristine cache r =
      apply_keys more pristine cache (apply_change key (lookup key pristine) (lookup key cache) r)

  unfoldable pub apply_changes : Dict V → Dict V → Option (Dict V) → Dict V × List (Item V)
  apply_changes pristine cache content =
      apply_keys (union_keys pristine cache) pristine cache (content_or content, [])

  -- The state, the node and the changes after a write.
  unfoldable pub write :
      Option (Dict V) → YamlState V → Result Error (YamlState V × (Dict V × List (Item V)))
  write content s = check_read s >>= λ pristine.
      ok (record s { pristine_cache = some s.cache }, apply_changes pristine s.cache content)

  -- `YAMLStateNodeMixin._set_node_value`
  unfoldable pub set_node_value : Error → String → V → Option (Dict V) → Result Error (Dict V)
  set_node_value missing key value content =
      let (s, result) = read true content new_state in
      elim result [
        | raise e ↦ raise missing
        | ok _ ↦ set_item key value s >>= λ s1. write content s1 >>= λ (_, (node, _)). ok node
      ]
