-- ===== src/Settings/Tests.antt =====
-- Writes of settings on small nodes of texts, and the theorems about them at inputs that meet their
-- hypotheses.
use trusted_juju.Prelude.{
  true, String, some, List, [], ◌∷◌, ok, raise, ◌≡◌, ◌↔◌, refl, str_eq, eq_iff, inl,
}
use trusted_juju.Prelude.Dict.{Dict, lookup, insert, remove}
use trusted_juju.Prelude.Sets.{contains, difference}
use trusted_juju.Settings.Buffer.{
  state_changed, Item, added_item, deleted_item, modified_item, YamlState, new_state, read,
  check_read, set_item, del_item, union_keys, apply_change, apply_keys, apply_changes, write,
  update, values_match, dict_merge, get_node_value, set_node_value,
}
use trusted_juju.Settings.Merge.{merged, untouched, write-lookup, apply_changes_comm}
use trusted_juju.Settings.Union.{Agree, or_else, dict_merge_iff}

program : Unit {0}
unfolding lookup insert remove contains difference new_state read check_read set_item del_item
    union_keys apply_change apply_keys apply_changes write update values_match dict_merge
    get_node_value set_node_value merged untouched
program = tt

-- The node when it was read.
abbrev node : Dict String
node = ("size", "1") ∷ ("mode", "on") ∷ ("old", "x") ∷ []

-- The buffer: "size" is changed, "old" deleted and "extra" added.
abbrev buffer : Dict String
buffer = ("size", "2") ∷ ("mode", "on") ∷ ("extra", "y") ∷ []

-- The node by the time of the write: another agent changed "mode" and "size".
abbrev later : Dict String
later = ("size", "3") ∷ ("mode", "off") ∷ ("old", "x") ∷ []

writes : apply_changes str_eq node buffer (some later) ≡ (
  ("size", "2") ∷ ("mode", "off") ∷ ("extra", "y") ∷ [],
  modified_item "size" "1" "2" ∷ deleted_item "old" "x" ∷ added_item "extra" "y" ∷ [],
)
unfolding program
writes = refl

abbrev settings : YamlState String
settings = record { pristine_cache = some node; cache = buffer }

write-lookup_example :
    (s' : YamlState String) × (after : Dict String) × (changes : List (Item String)) × (write str_eq
        (some later)
        settings
      ≡ ok (s', (after, changes)))
    × ((k : String)
        → lookup k after ≡ merged str_eq (lookup k node) (lookup k buffer) (lookup k later))
    × (s'.cache ≡ buffer)
    × (s'.pristine_cache ≡ some buffer)
write-lookup_example = write-lookup str_eq (some later) settings node refl

apply_changes_comm_example :
    lookup "mode"
      (apply_changes str_eq node later (some (apply_changes str_eq node buffer (some node)).0)).0
    ≡ lookup "mode"
        (apply_changes str_eq node buffer (some (apply_changes str_eq node later (some node)).0)).0
unfolding program
apply_changes_comm_example =
    apply_changes_comm str_eq node buffer node later (some node) "mode" (inl refl)

texts_sound : (a b : String) → str_eq a b ≡ true → a ≡ b
texts_sound a b = (eq_iff a b).0

dict_merge_iff_example : Agree str_eq (("a", "1") ∷ []) (("b", "2") ∷ []) ↔ (
    (d : Dict String) × (dict_merge str_eq (("a", "1") ∷ []) (("b", "2") ∷ []) ≡ ok d)
    × ((k : String)
        → lookup k d ≡ or_else (lookup k (("b", "2") ∷ [])) (lookup k (("a", "1") ∷ []))))
unfolding lookup
dict_merge_iff_example =
    dict_merge_iff str_eq (("a", "1") ∷ []) (("b", "2") ∷ []) (refl, tt) (refl, tt)

conflicts : dict_merge str_eq node later ≡ raise state_changed
unfolding program
conflicts = refl
