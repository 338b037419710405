-- ===== src/Actions/Parameters.antt =====
-- validator/action_ir.py, `_normalized_parameters`: the parameters of an action against its
-- contract.
use ev4_constructability_eng.Base.{
  String, Bool, true, false, not, ◌&&◌, ◌||◌, ◌==◌, Option, none, some, List, [], ◌∷◌, ◌++◌,
  is_empty, keep, map, str_in, if◌then◌else◌,
}
use ev4_constructability_eng.Base.Text.{casefold, ends_with}
use ev4_constructability_eng.Base.Python.{
  Py, ok, ◌>>=◌, ◌>>◌, ensure, action_ir_validation_error, ambiguous_alias, conflicting_aliases,
  conflicting_replacements, effect_parameter, missing_parameters, no_class_change,
  unknown_parameter,
}
use ev4_constructability_eng.Json.{
  Json, str, Fields, end, field, has_key, list_or_empty, value_at, dict_or_empty,
}
use ev4_constructability_eng.Registry.Contract.{ActionContract, find}
use ev4_constructability_eng.Registry.Actions.{effect_parameter_keys}
use ev4_constructability_eng.Actions.Canonical.{canonical_fields}
use ev4_constructability_eng.Actions.Values.{normalize_value, refuse}

-- `normalized[key] = value` for a key that is not there yet.
unfoldable pub append_field : Fields → String → Json → Fields
append_field end k v = field k v end
append_field (field j w fs) k v = field j w (append_field fs k v)

abbrev name_or : String → Option String → String
name_or key none = key
name_or key (some name) = name

-- `aliases.get(key, key)`
abbrev pub canonical_key : ActionContract → String → String
canonical_key contract key = name_or key (find key contract.aliases)

abbrev pub is_alias : ActionContract → String → Bool
is_alias contract key = elim (find key contract.aliases) [ none ↦ false | some name ↦ true ]

abbrev pub allowed_keys : ActionContract → List String
allowed_keys contract = contract.required_parameter_keys ++ contract.optional_parameter_keys

-- A key that only says that a decision is open; it is left out.
abbrev pub is_decision_key : String → Bool
is_decision_key key =
    str_in key ("requires_decision" ∷ "decision_required" ∷ [])
    || ends_with (casefold key) "_options"

-- One round of the loop: the parameters so far, and what is added.
unfoldable pub parameter_step :
    String → ActionContract → Fields → Fields → String → Json → Py Fields
parameter_step action_type contract parameters normalized key v =
    let name = canonical_key contract key in
    if is_alias contract key && has_key name parameters
    then refuse (ambiguous_alias key name)
    else if is_decision_key key
    then ok normalized
    else if not (str_in name (allowed_keys contract))
    then refuse (
        if str_in key effect_parameter_keys
        then effect_parameter key action_type
        else unknown_parameter key action_type)
    else if has_key name normalized
    then refuse (conflicting_aliases name)
    else normalize_value name v >>= (λ w. ok (append_field normalized name w))

unfoldable pub parameter_loop : String → ActionContract → Fields → Fields → Fields → Py Fields
unfolding parameter_step
parameter_loop action_type contract parameters normalized end = ok normalized
parameter_loop action_type contract parameters normalized (field key v rest) = do
  grown ← parameter_step action_type contract parameters normalized key v
  parameter_loop action_type contract parameters grown rest

abbrev pub missing : ActionContract → Fields → List String
missing contract normalized =
    keep (λ key. not (has_key key normalized)) contract.required_parameter_keys

-- `len(xs) == len(set(xs))`
abbrev pub all_distinct : List String → Bool
all_distinct [] = true
all_distinct (x ∷ xs) = not (str_in x xs) && all_distinct xs

abbrev text_at : String → Json → String
text_at key v = elim (value_at key (dict_or_empty v)) [ str s ↦ s | _ ↦ "" ]

abbrev replacement_sources : Fields → List String
replacement_sources normalized =
    map (text_at "from") (list_or_empty (value_at "replace_classes" normalized))

abbrev replacement_targets : Fields → List String
replacement_targets normalized =
    map (text_at "to") (list_or_empty (value_at "replace_classes" normalized))

abbrev is_empty_dict : Fields → Bool
is_empty_dict end = true
is_empty_dict (field k v fs) = false

-- The two checks on `apply_class` after the loop.
unfoldable pub class_checks : String → Fields → Py (Unit {0})
class_checks action_type normalized = do
  ensure (not (action_type == "apply_class" && is_empty_dict normalized))
      (action_ir_validation_error no_class_change)
  ensure
      (not (action_type == "apply_class" && has_key "replace_classes" normalized)
        || (all_distinct (replacement_sources normalized)
            && all_distinct (replacement_targets normalized)))
      (action_ir_validation_error conflicting_replacements)

-- `_normalized_parameters`, for the contract of the action type
unfoldable pub normalized_parameters : String → ActionContract → Fields → Py Fields
unfolding parameter_loop class_checks
normalized_parameters action_type contract parameters = do
  normalized ← parameter_loop action_type contract parameters end parameters
  ensure (is_empty (missing contract normalized))
      (action_ir_validation_error (missing_parameters action_type (missing contract normalized)))
  class_checks action_type normalized
  ok (canonical_fields normalized)
