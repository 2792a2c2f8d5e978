-- ===== src/Constraints/Defs.antt =====
-- juju/machine/constraints.py: `_ConstraintType`, `ConstraintSet` and `Constraints`. The values that
-- converters make of texts are of a type `V`, and the converters and comparers are those that a
-- provider registers.
use trusted_juju.Prelude.{
  String, Bool, true, false, not, ◌&&◌, Option, none, some, List, [], ◌∷◌, if◌then◌else◌, str_eq,
  Result, ok, raise, ◌>>=◌, ◌>>◌, check,
}
use trusted_juju.Prelude.Dict.{Dict, lookup, insert, keys, has_key}
use trusted_juju.Prelude.Sets.{add, sorted}

pub data Error : Type 0 where
  constraint_error : Error
  unknown_constraint : String → Error
  key_error : String → Error

pub record ConstraintType (V : Type 0) : Type 0 where
  pub default : Option String
  -- It raises `ValueError` where it gives nothing.
  pub converter : String → Option V
  pub comparer : V → V → Bool
  pub visible : Bool

-- `None` is converted to `None`.
unfoldable pub convert : {V : Type 0} → ConstraintType V → Option String → Result Error (Option V)
convert t none = ok none
convert t (some s) = elim (t.converter s) [ none ↦ raise constraint_error | some v ↦ ok (some v) ]

pub record ConstraintSet (V : Type 0) : Type 0 where
  pub provider_type : String
  pub registry : Dict (ConstraintType V)
  pub conflicts : Dict (List String)

unfoldable pub register :
    {V : Type 0} → String → ConstraintType V → ConstraintSet V → ConstraintSet V
register name t c = record c {
  registry = insert name t c.registry;
  conflicts = insert name [] c.conflicts;
}

-- `__init__`, with what the two constraints that are always there make of a text.
unfoldable pub new_constraint_set :
    {V : Type 0} → String → (String → Option V) → (V → V → Bool) → ConstraintSet V
unfolding register
new_constraint_set {V} provider_type dont_convert eq =
    let hidden : ConstraintType V = record {
      default = none;
      converter = dont_convert;
      comparer = eq;
      visible = false;
    } in
    register "provider-type" hidden (
      register "ubuntu-series" hidden
        (record { provider_type = provider_type; registry = []; conflicts = [] }))

-- `s.update(…)` of a set.
unfoldable pub add_all : List String → List String → List String
unfolding add
add_all [] s = s
add_all (x ∷ xs) s = add_all xs (add x s)

abbrev pub names_or : Option (List String) → List String
names_or none = []
names_or (some names) = names

unfoldable pub conflicts_of : {V : Type 0} → ConstraintSet V → String → List String
unfolding lookup
conflicts_of c name = names_or (lookup name c.conflicts)

-- `self._conflicts[name].update(…)`, which raises where the name is not registered.
unfoldable pub conflict_with :
    {V : Type 0} → List String → String → ConstraintSet V → Result Error (ConstraintSet V)
unfolding conflicts_of add_all
conflict_with others name c =
    if has_key name c.conflicts
    then ok
        (record c { conflicts = insert name (add_all others (conflicts_of c name)) c.conflicts })
    else raise (key_error name)

unfoldable pub conflict_all :
    {V : Type 0} → List String → List String → ConstraintSet V → Result Error (ConstraintSet V)
unfolding conflict_with
conflict_all others [] c = ok c
conflict_all others (name ∷ names) c = conflict_with others name c >>= conflict_all others names

unfoldable pub register_conflicts :
    {V : Type 0} → List String → List String → ConstraintSet V → Result Error (ConstraintSet V)
unfolding conflict_all
register_conflicts reds blues c = conflict_all blues reds c >>= conflict_all reds blues

unfoldable pub get : {V : Type 0} → ConstraintSet V → String → Option (ConstraintType V)
unfolding lookup
get c name = lookup name c.registry

-- `s.split("=", 1)` into two: there is no second part without the sign.
unfoldable pub split_at_sign : String → Option (String × String)
split_at_sign String.[] = none
split_at_sign (String.◌∷◌ c more) =
    let rest = split_at_sign more in
    if str_eq (String.◌∷◌ c String.[]) "="
    then some (String.[], more)
    else elim rest [ none ↦ none | some p ↦ some (String.◌∷◌ c p.0, p.1) ]

-- The data of a `Constraints`: a name with `None` masks the name in what it overrides.
abbrev pub Data : Type 0
Data = Dict (Option String)

abbrev pub value_of : {V : Type 0} → ConstraintType V → String → Option String
value_of t value =
    if str_eq value "any" then none else if str_eq value "" then t.default else some value

unfoldable pub put_value :
    {V : Type 0} → String → String → Option (ConstraintType V) → Data → Result Error Data
unfolding convert
put_value name value none values = raise (unknown_constraint name)
put_value name value (some t) values = convert t (value_of t value) >>= λ _.
    check t.visible constraint_error >> ok (insert name (value_of t value) values)

unfoldable pub parse_split :
    {V : Type 0} → ConstraintSet V → Option (String × String) → Data → Result Error Data
unfolding get put_value
parse_split c none values = raise constraint_error
parse_split c (some (name, value)) values = put_value name value (get c name) values

unfoldable pub parse_all : {V : Type 0} → ConstraintSet V → List String → Data → Result Error Data
unfolding split_at_sign parse_split
parse_all c [] values = ok values
parse_all c (s ∷ strs) values = parse_split c (split_at_sign s) values >>= parse_all c strs

-- The loop over the conflicts of one name: none of them may be in the data.
unfoldable pub check_none : Data → List String → List String → Result Error (List String)
unfolding add
check_none values [] masked = ok masked
check_none values (conflict ∷ more) masked =
    check (not (has_key conflict values)) constraint_error
    >> check_none values more (add conflict masked)

unfoldable pub check_value :
    {V : Type 0}
    → ConstraintSet V
    → Data
    → String
    → Option (Option String)
    → List String
    → Result Error (List String)
unfolding conflicts_of check_none
check_value c values name none masked = ok masked
check_value c values name (some none) masked = ok masked
check_value c values name (some (some value)) masked =
    check (has_key name c.conflicts) (key_error name)
    >> check_none values (sorted (conflicts_of c name)) masked

unfoldable pub check_names :
    {V : Type 0} → ConstraintSet V → Data → List String → List String → Result Error (List String)
unfolding lookup check_value
check_names c values [] masked = ok masked
check_names c values (name ∷ names) masked =
    check_value c values name (lookup name values) masked >>= check_names c values names

-- `data.update(dict((conflict, None) for conflict in conflicts))`
unfoldable pub mask : List String → Data → Data
mask [] values = values
mask (conflict ∷ more) values = mask more (insert conflict none values)

unfoldable pub parse : {V : Type 0} → ConstraintSet V → List String → Result Error Data
unfolding parse_all check_names mask
parse c strs = parse_all c strs (("provider-type", some c.provider_type) ∷ []) >>= λ values.
    check_names c values (sorted (keys values)) [] >>= λ masked. ok (mask masked values)

-- The parts of the data that the set knows are validated.
unfoldable pub load_all : {V : Type 0} → ConstraintSet V → Data → Result Error (Unit {0})
unfolding get convert
load_all c [] = ok tt
load_all c ((k, v) ∷ values) = elim (get c k) [
  | none ↦ load_all c values
  | some t ↦ convert t v >>= λ _. load_all c values
]

unfoldable pub load : {V : Type 0} → ConstraintSet V → Data → Result Error Data
unfolding load_all
load c values = load_all c values >>= λ _. ok values

abbrev pub value_or : Option (Option String) → Option String → Option String
value_or none default = default
value_or (some value) default = value

-- `Constraints.__getitem__`
unfoldable pub get_item : {V : Type 0} → ConstraintSet V → String → Data → Result Error (Option V)
unfolding get convert
get_item c name values = elim (get c name) [
  | none ↦ raise (key_error name)
  | some t ↦ convert t (value_or (lookup name values) t.default)
]

unfoldable pub with_series : {V : Type 0} → ConstraintSet V → String → Data → Result Error Data
unfolding load
with_series c series values = load c (insert "ubuntu-series" (some series) values)

-- `Constraints.update`
unfoldable pub update : Data → Data → Data
update values [] = values
update values ((k, v) ∷ other) = update (insert k v values) other

abbrev pub is_set : {V : Type 0} → Option V → Bool
is_set none = false
is_set (some v) = true

unfoldable pub complete : {V : Type 0} → ConstraintSet V → Data → Result Error Bool
unfolding get_item
complete c values = get_item c "provider-type" values >>= λ provider.
    get_item c "ubuntu-series" values >>= λ series. ok (is_set provider && is_set series)

-- One item of the unit's constraints, against what the machine has.
abbrev pub meets : {V : Type 0} → ConstraintType V → Option V → Option V → Bool
meets t machine none = true
meets t none (some unit) = false
meets t (some machine) (some unit) = t.comparer machine unit

unfoldable pub meets_item :
    {V : Type 0} → ConstraintSet V → Data → ConstraintSet V → Data → String → Result Error Bool
unfolding get_item get
meets_item c machine unit_c unit name = get_item unit_c name unit >>= λ unit_value.
    if not (is_set unit_value) then ok true else elim (get c name) [
      | none ↦ raise (key_error name)
      | some t ↦ get_item c name machine >>= λ machine_value. ok (meets t machine_value unit_value)
    ]

-- The first item that is not met ends the loop.
abbrev pub then_meets : Result Error Bool → Result Error Bool → Result Error Bool
then_meets (raise e) rest = raise e
then_meets (ok false) rest = ok false
then_meets (ok true) rest = rest

unfoldable pub meets_items :
    {V : Type 0} → ConstraintSet V → Data → ConstraintSet V → Data → List String → Result Error Bool
unfolding meets_item
meets_items c machine unit_c unit [] = ok true
meets_items c machine unit_c unit (name ∷ names) =
    then_meets (meets_item c machine unit_c unit name) (meets_items c machine unit_c unit names)

-- `machine.can_satisfy(unit)`: `self.complete` is asked first, and the unit's only where it holds.
unfoldable pub can_satisfy :
    {V : Type 0} → ConstraintSet V → Data → ConstraintSet V → Data → Result Error Bool
unfolding complete meets_items
can_satisfy c machine unit_c unit =
    then_meets (complete c machine)
      (then_meets (complete unit_c unit) (meets_items c machine unit_c unit (keys unit_c.registry)))
