-- ===== src/Effects/ClassEffect.antt =====
-- validator/action_effects.py, `_class_effect`.
use ev4_constructability_eng.Base.{
  String, Bool, true, not, ◌&&◌, ◌||◌, none, some, List, [], ◌∷◌, ◌++◌, is_empty, keep, map,
  if◌then◌else◌, str_in,
}
use ev4_constructability_eng.Base.Python.{Py, ok, raise, ◌>>=◌, key_error}
use ev4_constructability_eng.Base.Sorting.{distinct, sort_texts}
use ev4_constructability_eng.Json.{Json, obj, Fields, lookup, value_at}
use ev4_constructability_eng.Json.Host.{Host}
use ev4_constructability_eng.Actions.Normalize.{ActionIr}
use ev4_constructability_eng.Effects.Inputs.{list_or_default}
use ev4_constructability_eng.Effects.Permissions.{Request, permission_granted}
use ev4_constructability_eng.Effects.Records.{
  ClassEffect, EffectDiagnostic, approved_class_removed_or_replaced, unapproved_class,
}

-- `sorted(names)` of a set of names.
abbrev pub sorted_set : List String → List String
sorted_set names = sort_texts (distinct names)

-- The names that are approved, and those that are not.
abbrev pub inside : List String → List String → List String
inside approved names = keep (λ n. str_in n approved) names

abbrev pub outside : List String → List String → List String
outside approved names = keep (λ n. not (str_in n approved)) names

-- What an action does to the classes: the names it adds, those it removes, and its replacements.
pub record ClassChange : Type 0 where
  pub additions : List String
  pub removals : List String
  pub replacements : List (String × String)

abbrev pub introduced : List String → ClassChange → List String
introduced approved change =
    outside approved change.additions ++ outside approved (map (λ r. r.1) change.replacements)

abbrev pub removed_approved : List String → ClassChange → List String
removed_approved approved change =
    inside approved change.removals ++ inside approved (map (λ r. r.0) change.replacements)

abbrev pub class_set_changed : List String → ClassChange → Bool
class_set_changed approved change =
    not (is_empty (introduced approved change))
    || (not (is_empty (removed_approved approved change)) || not (is_empty change.replacements))

-- A diagnostic about some names, if there are any and no permission.
abbrev pub unless_granted :
    Bool → (List String → EffectDiagnostic) → List String → List EffectDiagnostic
unless_granted granted diagnostic names =
    if not (is_empty names) && not granted then diagnostic (sorted_set names) ∷ [] else []

unfoldable pub class_diagnostics : Bool → List String → List String → List EffectDiagnostic
class_diagnostics granted introduced_names removed_names =
    unless_granted granted unapproved_class introduced_names
    ++ unless_granted granted approved_class_removed_or_replaced removed_names

module _ (host : Host) where
  open host use {py_str}

  -- `str(item[key])`
  unfoldable pub text_at : String → Fields → Py String
  text_at key item = elim (lookup key item) [ none ↦ raise key_error | some v ↦ ok (py_str v) ]

  -- The loop over `replace_classes`, which passes over what is no dict.
  unfoldable pub replacements_of : List Json → Py (List (String × String))
  replacements_of [] = ok []
  replacements_of (obj item ∷ rest) = do
    from ← text_at "from" item
    to ← text_at "to" item
    more ← replacements_of rest
    ok ((from, to) ∷ more)
  replacements_of (_ ∷ rest) = replacements_of rest

  -- The first part of `_class_effect`.
  unfoldable pub class_change : Fields → Py ClassChange
  class_change parameters = do
    added ← list_or_default (value_at "class_names" parameters)
    dropped ← list_or_default (value_at "remove_classes" parameters)
    replaced ← list_or_default (value_at "replace_classes" parameters)
    pairs ← replacements_of replaced
    ok (record {
      additions = map py_str added;
      removals = map py_str dropped;
      replacements = pairs;
    })

  abbrev pub class_request : ActionIr → List String → Request
  class_request ir names = record {
    subject_ref = ir.target_node;
    action_type = ir.action_type;
    effect_kind = "class";
    class_names = names;
    node_ids = [];
  }

  -- `(not class_set_changed) or _permission_granted(…)`
  unfoldable pub class_permission : ActionIr → List String → Fields → Fields → ClassChange → Py Bool
  class_permission ir approved architect_intake source_bundle change =
      if class_set_changed approved change
      then permission_granted host architect_intake source_bundle
          (class_request ir (introduced approved change ++ removed_approved approved change))
      else ok true

  abbrev pub build_class_effect : List String → ClassChange → Bool → ClassEffect
  build_class_effect approved change granted = record {
    applied_class_names = sorted_set change.additions;
    introduced_class_names = sorted_set (introduced approved change);
    removed_approved_class_names = sorted_set (removed_approved approved change);
    replacements = change.replacements;
    changes_approved_class_set = class_set_changed approved change;
    permission_required = class_set_changed approved change;
    permission_granted = granted;
    preserves_approved_class_set = not (class_set_changed approved change);
    diagnostics =
        class_diagnostics granted (introduced approved change) (removed_approved approved change);
  }

  -- `_class_effect`
  unfoldable pub class_effect : ActionIr → List String → Fields → Fields → Py ClassEffect
  class_effect ir approved architect_intake source_bundle = do
    change ← class_change ir.normalized_parameters
    granted ← class_permission ir approved architect_intake source_bundle change
    ok (build_class_effect approved change granted)
