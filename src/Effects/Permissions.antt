-- ===== src/Effects/Permissions.antt =====
-- validator/action_effects.py, `_permission_matches` and `_permission_granted`.
use ev4_constructability_eng.Base.{
  String, Bool, true, false, Option, none, some, List, [], ◌∷◌, any, all, is_empty, map, ◌||◌,
  if◌then◌else◌, str_in,
}
use ev4_constructability_eng.Base.Python.{Py, ok, raise, ◌>>=◌, type_error}
use ev4_constructability_eng.Json.{
  Json, str, arr, obj, Fields, elems, is_null, is_one, is_str, value_at,
}
use ev4_constructability_eng.Json.Host.{Host}
use ev4_constructability_eng.Effects.Inputs.{inner, permissions}

-- What an action asks a permission for: the subject, the action's type, the kind of the effect and
-- the classes and nodes that it touches.
pub record Request : Type 0 where
  pub subject_ref : String
  pub action_type : String
  pub effect_kind : String
  pub class_names : List String
  pub node_ids : List String

-- Two tests, the second only after the first.
abbrev pub both : Py Bool → Py Bool → Py Bool
both m rest = m >>= λ (b : Bool). if b then rest else ok false

-- `v in {"approved", "explicitly_approved", True}`
abbrev pub approved_status : Json → Py Bool
approved_status (str s) = ok (str_in s ("approved" ∷ "explicitly_approved" ∷ []))
approved_status (arr vs) = raise type_error
approved_status (obj fs) = raise type_error
approved_status v = ok (is_one v)

-- `v in {None, …}` for a set of texts beside None.
abbrev pub absent_or_in : List String → Json → Py Bool
absent_or_in ts (str s) = ok (str_in s ts)
absent_or_in ts (arr vs) = raise type_error
absent_or_in ts (obj fs) = raise type_error
absent_or_in ts v = ok (is_null v)

-- A list that is given names the action's type.
abbrev pub action_allowed : String → Json → Bool
action_allowed action_type (arr vs) = any (is_str action_type) (elems vs)
action_allowed action_type _ = true

abbrev pub option_texts : Option String → List String
option_texts none = []
option_texts (some s) = s ∷ []

module _ (host : Host) where
  open host use {py_str}

  -- `names.issubset({str(item) for item in v})` for a list v, which only an empty set does without.
  abbrev pub names_allowed : List String → Json → Bool
  names_allowed names (arr vs) = is_empty names || all (λ n. str_in n (map py_str (elems vs))) names
  names_allowed names _ = is_empty names

  -- The last three tests of `_permission_matches`, which raise nothing.
  abbrev pub scope_allowed : Request → Fields → Bool
  scope_allowed request permission =
      if action_allowed request.action_type (value_at "allowed_action_types" permission)
      then (if names_allowed request.class_names (value_at "allowed_class_names" permission)
          then names_allowed request.node_ids (value_at "allowed_node_ids" permission)
          else false)
      else false

  -- `_permission_matches`
  unfoldable pub permission_matches : Option String → Request → Fields → Py Bool
  permission_matches candidate_id request permission =
      both (approved_status (value_at "status" permission)) (
        both
          (absent_or_in (option_texts candidate_id) (value_at "selected_candidate_id" permission))
          (both (absent_or_in (request.subject_ref ∷ []) (value_at "subject_ref" permission)) (
            both
              (absent_or_in (request.effect_kind ∷ "class_and_structure" ∷ [])
                (value_at "effect_kind" permission))
              (ok (scope_allowed request permission)))))

  -- `any(…)`: the rest is tested only if the first fails.
  unfoldable pub any_matches : Option String → Request → List Fields → Py Bool
  any_matches candidate_id request [] = ok false
  any_matches candidate_id request (p ∷ ps) =
      let rest = any_matches candidate_id request ps in
      permission_matches candidate_id request p >>= λ (b : Bool). if b then ok true else rest

  -- `str(selected.get("selected_candidate_id"))`, or None.
  abbrev pub candidate_of : Fields → Option String
  candidate_of architect_intake =
      let v = inner "selected_candidate_id" (value_at "selected_architecture" architect_intake) in
      if is_null v then none else some (py_str v)

  -- `_permission_granted`
  unfoldable pub permission_granted : Fields → Fields → Request → Py Bool
  permission_granted architect_intake source_bundle request =
      any_matches (candidate_of architect_intake) request
        (permissions architect_intake source_bundle)
