-- ===== src/Actions/Normalize.antt =====
-- validator/action_ir.py: `normalize_action`, `normalize_actions` and `normalized_review_draft`.
use ev4_constructability_eng.Base.{
  ℕ, suc, String, ◌<>◌, Bool, not, ◌&&◌, ◌==◌, Option, none, some, List, [], ◌∷◌, is_empty, keep,
  map, str_in, if◌then◌else◌,
}
use ev4_constructability_eng.Base.Text.{show}
use ev4_constructability_eng.Base.Sorting.{sort_texts}
use ev4_constructability_eng.Base.Python.{
  Py, ok, ◌>>=◌, ◌>>◌, ensure, action_ir_validation_error, duplicate_action, identity_incomplete,
  no_actions, not_an_object, parameters_not_object, proposals_not_array, unknown_action_type,
  unknown_fields,
}
use ev4_constructability_eng.Json.{
  Json, str, arr, obj, Fields, end, field, elems, from_default, has_key, is_text, lookup, or_else,
  pairs, value_at,
}
use ev4_constructability_eng.Json.Build.{dict_of, list_of}
use ev4_constructability_eng.Registry.Contract.{ActionContract}
use ev4_constructability_eng.Registry.Actions.{contract_for}
use ev4_constructability_eng.Actions.Canonical.{canonical}
use ev4_constructability_eng.Actions.Hidden.{hidden_decisions}
use ev4_constructability_eng.Actions.Parameters.{normalized_parameters}
use ev4_constructability_eng.Actions.Values.{refuse}

-- The source path is `str(…)` of the action's own, or the default; here the value that `str` gets.
pub record ActionIr : Type 0 where
  pub action_id : String
  pub action_type : String
  pub target_node : String
  pub normalized_parameters : Fields
  pub class_effects : List String
  pub structure_effects : List String
  pub decision_effects : List String
  pub required_claims : List String
  pub required_permissions : List String
  pub decision_state : String
  pub hidden_decision_paths : List String
  pub source_draft_path : Json

-- The name of the field that holds the parameters: an action in the intermediate form has the
-- normalized ones and no others.
abbrev pub parameters_key : Fields → String
parameters_key action =
    if has_key "normalized_parameters" action && not (has_key "parameters" action)
    then "normalized_parameters"
    else "parameters"

abbrev allowed_top : Fields → List String
allowed_top action =
    "action_id"
    ∷ "action_type"
    ∷ "target_node"
    ∷ parameters_key action
    ∷ "derived_effects"
    ∷ "required_claims"
    ∷ "required_permissions"
    ∷ "decision_state"
    ∷ "hidden_decision_paths"
    ∷ "source_draft_path"
    ∷ []

unfoldable pub unknown_top : Fields → List String
unknown_top action =
    sort_texts (keep (λ key. not (str_in key (allowed_top action))) (map (λ p. p.0) (pairs action)))

abbrev pub text_value : Json → String
text_value (str s) = s
text_value _ = ""

abbrev pub proposal_path : ℕ → String
proposal_path index = "$.builder_action_proposals[" <> show index <> "]"

abbrev pub state_of : List String → String
state_of hidden = if is_empty hidden then "resolved" else "unresolved"

-- The intermediate form of an action whose contract and parameters are known.
unfoldable pub build_ir : Fields → ActionContract → Fields → List String → ℕ → ActionIr
build_ir action contract parameters hidden index = record {
  action_id = text_value (value_at "action_id" action);
  action_type = text_value (value_at "action_type" action);
  target_node = text_value (value_at "target_node" action);
  normalized_parameters = parameters;
  class_effects = contract.derived_class_effects;
  structure_effects = contract.derived_structure_effects;
  decision_effects = contract.derived_decision_effects;
  required_claims = contract.required_claims;
  required_permissions = contract.required_permissions;
  decision_state = state_of hidden;
  hidden_decision_paths = sort_texts hidden;
  source_draft_path = or_else (value_at "source_draft_path" action) (str (proposal_path index));
}

abbrev pub known_contract : String → Option ActionContract → Py ActionContract
known_contract action_type none = refuse (unknown_action_type action_type)
known_contract action_type (some contract) = ok contract

abbrev pub parameters_object : Json → Py Fields
parameters_object (obj fs) = ok fs
parameters_object _ = refuse parameters_not_object

abbrev pub identity_complete : Fields → Bool
identity_complete action =
    is_text (value_at "action_id" action)
    && (is_text (value_at "action_type" action) && is_text (value_at "target_node" action))

-- The part of `normalize_action` after the two checks on the fields.
unfoldable pub normalize_known : Fields → ℕ → Py ActionIr
normalize_known action index = do
  let action_type = text_value (value_at "action_type" action)
  contract ← known_contract action_type (contract_for action_type)
  raw ← parameters_object (from_default (lookup (parameters_key action) action) (obj end))
  parameters ← normalized_parameters action_type contract raw
  ok (
      build_ir action contract parameters
        (hidden_decisions (obj raw) (proposal_path index <> ".parameters")) index)

-- `normalize_action`
unfoldable pub normalize_action : Json → ℕ → Py ActionIr
unfolding normalize_known
normalize_action (obj action) index = do
  ensure (is_empty (unknown_top action))
      (action_ir_validation_error (unknown_fields (unknown_top action)))
  ensure (identity_complete action) (action_ir_validation_error identity_incomplete)
  normalize_known action index
normalize_action _ index = refuse not_an_object

-- The loop of `normalize_actions`, with the identities seen so far.
unfoldable pub normalize_loop : ℕ → List String → List Json → Py (List ActionIr)
normalize_loop index seen [] = ok []
normalize_loop index seen (action ∷ rest) = do
  ir ← normalize_action action index
  ensure (not (str_in ir.action_id seen))
      (action_ir_validation_error (duplicate_action ir.action_id))
  more ← normalize_loop (suc index) (ir.action_id ∷ seen) rest
  ok (ir ∷ more)

-- `normalize_actions`
unfoldable pub normalize_actions : List Json → Py (List ActionIr)
unfolding normalize_loop
normalize_actions actions = do
  result ← normalize_loop 0 [] actions
  ensure (not (is_empty result)) (action_ir_validation_error no_actions)
  ok result

-- The proposal that an intermediate form is written back as.
abbrev pub proposal : ActionIr → Json
proposal ir = dict_of (
    ("action_id", str ir.action_id)
    ∷ ("action_type", str ir.action_type)
    ∷ ("target_node", str ir.target_node)
    ∷ ("parameters", obj ir.normalized_parameters)
    ∷ [])

-- `draft[key] = value` for a key that is there.
unfoldable pub replace_field : String → Json → Fields → Fields
replace_field k v end = end
replace_field k v (field j w fs) = if j == k then field j v fs else field j w (replace_field k v fs)

abbrev proposals_of : Json → Py (List Json)
proposals_of (arr vs) = ok (elems vs)
proposals_of _ = refuse proposals_not_array

-- `normalized_review_draft`
unfoldable pub normalized_review_draft : Fields → Py (Json × List ActionIr)
unfolding normalize_actions replace_field
normalized_review_draft draft = do
  raw ← proposals_of (value_at "builder_action_proposals" draft)
  action_ir ← normalize_actions raw
  ok (
    canonical
        (obj (replace_field "builder_action_proposals" (list_of (map proposal action_ir)) draft)),
    action_ir,
  )
