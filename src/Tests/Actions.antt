-- ===== src/Tests/Actions.antt =====
-- Actions normalized on concrete proposals.
use ev4_constructability_eng.Base.{◌≡◌, ◌≢◌, refl, true, List, [], ◌∷◌, All, length}
use ev4_constructability_eng.Base.Text.{casefold, contains, ends_with, show, strip}
use ev4_constructability_eng.Base.Sorting.{sort_texts}
use ev4_constructability_eng.Base.Python.{ok}
use ev4_constructability_eng.Json.{Json, dict_or_empty, has_key, obj, str}
use ev4_constructability_eng.Json.Build.{fields_of}
use ev4_constructability_eng.Registry.Contract.{ActionContract}
use ev4_constructability_eng.Registry.Actions.{contract_for}
use ev4_constructability_eng.Actions.Canonical.{canonical, insert_field}
use ev4_constructability_eng.Actions.Hidden.{
  Open, asks_decision, hidden_decisions, hidden_decisions_iff, is_open_text, offers_options,
}
use ev4_constructability_eng.Actions.Values.{normalize_value}
use ev4_constructability_eng.Actions.Parameters.{
  allowed_keys, append_field, class_checks, normalized_parameters, parameter_loop, parameter_step,
}
use ev4_constructability_eng.Actions.KeyLaws.{KeysIn, normalized_parameters-KeysIn}
use ev4_constructability_eng.Actions.Normalize.{
  ActionIr, build_ir, normalize_action, normalize_actions, normalize_known, normalize_loop,
  unknown_top,
}
use ev4_constructability_eng.Actions.Laws.{
  FreshIds, IsNormal, normalize_action-IsNormal, normalize_actions-FreshIds,
}
use ev4_constructability_eng.Tests.Data.{grid_parameters, layout_action, open_parameters}

abbrev grid_ir : ActionIr
grid_ir = record {
  action_id = "a1";
  action_type = "configure_layout";
  target_node = "n1";
  normalized_parameters = fields_of (("gap", str "8px") ∷ ("layout_model", str "grid") ∷ []);
  class_effects = [];
  structure_effects = [];
  decision_effects = [];
  required_claims = "geometry" ∷ [];
  required_permissions = [];
  decision_state = "resolved";
  hidden_decision_paths = [];
  source_draft_path = str "$.builder_action_proposals[0]";
}

action_normalized : normalize_action (obj (layout_action "a1" grid_parameters)) 0 ≡ ok grid_ir
unfolding normalize_action normalize_known unknown_top build_ir contract_for normalized_parameters
    parameter_loop parameter_step append_field class_checks normalize_value canonical
    hidden_decisions sort_texts casefold strip show ends_with insert_field asks_decision
    offers_options is_open_text contains
action_normalized = refl

normalize_action-IsNormal_example : IsNormal (layout_action "a1" grid_parameters) grid_ir
normalize_action-IsNormal_example =
    normalize_action-IsNormal (layout_action "a1" grid_parameters) 0 grid_ir action_normalized

abbrev second_ir : ActionIr
second_ir = record {
  action_id = "a2";
  action_type = "configure_layout";
  target_node = "n1";
  normalized_parameters = fields_of (("layout_model", str "grid") ∷ []);
  class_effects = [];
  structure_effects = [];
  decision_effects = [];
  required_claims = "geometry" ∷ [];
  required_permissions = [];
  decision_state = "unresolved";
  hidden_decision_paths = "$.builder_action_proposals[1].parameters.gap_options" ∷ [];
  source_draft_path = str "$.builder_action_proposals[1]";
}

abbrev two_actions : List Json
two_actions =
    obj (layout_action "a1" grid_parameters) ∷ obj (layout_action "a2" open_parameters) ∷ []

actions_normalized : normalize_actions two_actions ≡ ok (grid_ir ∷ second_ir ∷ [])
unfolding normalize_actions normalize_loop normalize_action normalize_known unknown_top build_ir
    contract_for normalized_parameters parameter_loop parameter_step append_field class_checks
    normalize_value canonical hidden_decisions sort_texts casefold strip show ends_with insert_field
    asks_decision offers_options is_open_text contains
actions_normalized = refl

normalize_actions-FreshIds_example :
    ((grid_ir ∷ second_ir ∷ []) ≢ [])
    × (length (grid_ir ∷ second_ir ∷ []) ≡ length two_actions)
    × FreshIds [] (grid_ir ∷ second_ir ∷ [])
normalize_actions-FreshIds_example =
    normalize_actions-FreshIds two_actions (grid_ir ∷ second_ir ∷ []) actions_normalized

options_hidden : hidden_decisions open_parameters "$" ≡ "$.gap_options" ∷ []
unfolding hidden_decisions asks_decision offers_options is_open_text contains ends_with casefold
    strip show
options_hidden = refl

nothing_hidden : hidden_decisions grid_parameters "$" ≡ []
unfolding hidden_decisions asks_decision offers_options is_open_text contains ends_with casefold
    strip show
nothing_hidden = refl

hidden_decisions_iff_example : ¬ (Open grid_parameters)
hidden_decisions_iff_example = (hidden_decisions_iff grid_parameters "$").0 nothing_hidden

abbrev layout_contract : ActionContract
layout_contract = record {
  required_parameter_keys = "layout_model" ∷ [];
  optional_parameter_keys = "gap" ∷ "alignment" ∷ "direction" ∷ [];
  aliases = ("layout", "layout_model") ∷ [];
  derived_class_effects = [];
  derived_structure_effects = [];
  derived_decision_effects = [];
  required_claims = "geometry" ∷ [];
  required_permissions = [];
}

parameters_normalized :
    normalized_parameters "configure_layout" layout_contract (dict_or_empty grid_parameters)
    ≡ ok (fields_of (("gap", str "8px") ∷ ("layout_model", str "grid") ∷ []))
unfolding normalized_parameters parameter_loop parameter_step append_field class_checks
    normalize_value canonical hidden_decisions sort_texts casefold strip show ends_with insert_field
    asks_decision offers_options is_open_text contains
parameters_normalized = refl

normalized_parameters-KeysIn_example :
    KeysIn
      (fields_of (("gap", str "8px") ∷ ("layout_model", str "grid") ∷ []))
      (allowed_keys layout_contract)
    × All
        (λ key.
          has_key key (fields_of (("gap", str "8px") ∷ ("layout_model", str "grid") ∷ [])) ≡ true)
        ("layout_model" ∷ [])
normalized_parameters-KeysIn_example =
    normalized_parameters-KeysIn "configure_layout" layout_contract (dict_or_empty grid_parameters)
      (fields_of (("gap", str "8px") ∷ ("layout_model", str "grid") ∷ [])) parameters_normalized
