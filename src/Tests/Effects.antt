-- ===== src/Tests/Effects.antt =====
-- The effects of concrete proposals.
use mathlib.Core.List.{Memᴰ, Perm}
use ev4_constructability_eng.Base.{◌≡◌, ◌↔◌, refl, true, false, List, [], ◌∷◌, All, map}
use ev4_constructability_eng.Base.Text.{casefold, contains, ends_with, show, strip}
use ev4_constructability_eng.Base.Sorting.{distinct, insert_by, sort_by, sort_texts}
use ev4_constructability_eng.Base.Python.{Py, ok, raise}
use ev4_constructability_eng.Json.{Json, bool, str, obj, Fields, end}
use ev4_constructability_eng.Json.Build.{dict_of, fields_of, list_of, texts_of}
use ev4_constructability_eng.Registry.Actions.{contract_for}
use ev4_constructability_eng.Actions.Canonical.{canonical, insert_field}
use ev4_constructability_eng.Actions.Hidden.{
  asks_decision, hidden_decisions, is_open_text, offers_options,
}
use ev4_constructability_eng.Actions.Values.{normalize_value}
use ev4_constructability_eng.Actions.Parameters.{
  append_field, class_checks, normalized_parameters, parameter_loop, parameter_step,
}
use ev4_constructability_eng.Actions.Normalize.{
  ActionIr, build_ir, normalize_action, normalize_known, unknown_top,
}
use ev4_constructability_eng.Actions.Laws.{normalize_action-IsNormal}
use ev4_constructability_eng.Effects.Accounting.{
  IsFlagged, action_ids, derive_action_effects-IsFlagged,
}
use ev4_constructability_eng.Effects.Authority.{class_effect_iff, ClassAuthorized}
use ev4_constructability_eng.Effects.BuildRecord.{
  build_record, conflicts_with, forbidden_conflicts, record_reports,
}
use ev4_constructability_eng.Effects.ClassEffect.{
  class_change, class_diagnostics, class_effect, class_permission, replacements_of, text_at,
}
use ev4_constructability_eng.Effects.Derive.{
  EffectInputs, derive_action_effects, effect_inputs, effect_record, effects_loop, invalid_record,
  record_of,
}
use ev4_constructability_eng.Effects.DeriveLaws.{
  AllAcceptable, derive_action_effects_iff, proposals,
}
use ev4_constructability_eng.Effects.Inputs.{
  NodeMap, approved_classes, nodes_loop, permissions, reviewed_by_id, structure_model,
  structure_nodes, tree_of,
}
use ev4_constructability_eng.Effects.PermissionLaws.{Permits, permission_granted_iff}
use ev4_constructability_eng.Effects.Permissions.{
  Request, any_matches, candidate_of, permission_granted, permission_matches,
}
use ev4_constructability_eng.Effects.Records.{ActionEffects, ClassEffect, EffectRecord}
use ev4_constructability_eng.Effects.StructureEffect.{
  TreeChange, structure_diagnostics, structure_effect, tree_change,
}
use ev4_constructability_eng.Effects.TreeLaws.{IsTree, structure_nodes_iff, tree_change-ok}
use ev4_constructability_eng.Tests.Data.{test_host}

abbrev hero_action : Json
hero_action = dict_of (
    ("action_id", str "a2")
    ∷ ("action_type", str "apply_class")
    ∷ ("target_node", str "n1")
    ∷ ("parameters", dict_of (("class_names", texts_of ("hero" ∷ [])) ∷ []))
    ∷ [])

abbrev removal : Fields
removal = fields_of (
    ("action_id", str "a1")
    ∷ ("action_type", str "remove_element")
    ∷ ("target_node", str "n2")
    ∷ [])

abbrev pub draft : Fields
draft = fields_of (
    ("builder_action_proposals", list_of (hero_action ∷ obj removal ∷ []))
    ∷ (
      "reviewed_nodes",
      list_of (
          dict_of (("node_id", str "n1") ∷ ("proposed_action", str "Responsive hero") ∷ [])
          ∷ dict_of (("node_id", str "n2") ∷ ("requested_claims", texts_of ("geometry" ∷ [])) ∷ [])
          ∷ []),
    )
    ∷ [])

abbrev class_permit : Fields
class_permit = fields_of (
    ("status", str "approved")
    ∷ ("effect_kind", str "class")
    ∷ ("allowed_class_names", texts_of ("hero" ∷ []))
    ∷ [])

abbrev removal_permit : Fields
removal_permit = fields_of (
    ("status", bool true)
    ∷ ("subject_ref", str "n2")
    ∷ ("allowed_node_ids", texts_of ("n2" ∷ []))
    ∷ [])

abbrev pub intake : Fields
intake = fields_of (
    (
      "structure_projection",
      dict_of (
          (
            "nodes",
            list_of (
                dict_of (("source_node_id", str "n1") ∷ [])
                ∷ dict_of (("source_node_id", str "n2") ∷ [])
                ∷ []),
          )
          ∷ []),
    )
    ∷ (
      "architect_intent_preserved",
      dict_of (
          ("class_intent", dict_of (("approved_class_names", texts_of ("card" ∷ [])) ∷ []))
          ∷ ("extension_permissions", list_of (obj class_permit ∷ []))
          ∷ []),
    )
    ∷ ("forbidden_work", texts_of ("no new pages" ∷ []))
    ∷ [])

abbrev pub bundle : Fields
bundle = fields_of (
    (
      "payload",
      dict_of (
          (
            "approved_structure_model",
            dict_of (
                (
                  "structure_nodes",
                  list_of (
                      dict_of (("node_id", str "n1") ∷ [])
                      ∷ dict_of (("node_id", str "n2") ∷ [])
                      ∷ []),
                )
                ∷ []),
          )
          ∷ (
            "architect_intent",
            dict_of (("extension_permissions", list_of (obj removal_permit ∷ [])) ∷ []),
          )
          ∷ []),
    )
    ∷ [])

abbrev tree : NodeMap
tree =
    ("n1", fields_of (("node_id", str "n1") ∷ []))
    ∷ ("n2", fields_of (("node_id", str "n2") ∷ []))
    ∷ []

tree_read : structure_nodes bundle ≡ ok tree
unfolding structure_nodes tree_of nodes_loop
tree_read = refl

structure_nodes_iff_example : IsTree (structure_model bundle) tree
structure_nodes_iff_example = (structure_nodes_iff bundle tree).0 tree_read

abbrev removal_request : Request
removal_request = record {
  subject_ref = "n2";
  action_type = "remove_element";
  effect_kind = "structure";
  class_names = [];
  node_ids = "n2" ∷ [];
}

removal_granted : permission_granted test_host intake bundle removal_request ≡ ok true
unfolding permission_granted any_matches permission_matches permissions
removal_granted = refl

permission_granted_iff_example : (true ≡ true) ↔ (
    (p : Fields) × Memᴰ p (permissions intake bundle)
    × Permits test_host (candidate_of test_host intake) removal_request p)
permission_granted_iff_example =
    permission_granted_iff test_host intake bundle removal_request true removal_granted

-- The value of a result, with one for a failure.
abbrev value_or {ℓ} : {A : Type ℓ} → A → Py A → A
value_or d (ok a) = a
value_or d (raise e) = d

unfoldable effects : ActionEffects
effects =
    value_or (record { records = []; diagnostics = []; complete = false })
      (derive_action_effects test_host intake bundle draft)

effects_derived : derive_action_effects test_host intake bundle draft ≡ ok effects
unfolding effects derive_action_effects effect_inputs effects_loop record_of effect_record
    build_record record_reports forbidden_conflicts conflicts_with class_effect class_permission
    class_change class_diagnostics replacements_of structure_effect structure_diagnostics
    tree_change text_at permission_granted any_matches permission_matches permissions
    structure_nodes tree_of nodes_loop approved_classes reviewed_by_id normalize_action
    normalize_known unknown_top build_ir contract_for normalized_parameters parameter_loop
    parameter_step append_field class_checks normalize_value canonical hidden_decisions sort_texts
    distinct casefold strip show ends_with insert_field asks_decision offers_options is_open_text
    contains sort_by insert_by invalid_record
effects_derived = refl

derive_action_effects_iff_example :
    (inputs : EffectInputs) × (effect_inputs test_host intake bundle draft ≡ ok inputs)
    × ((effects.complete ≡ true) ↔ AllAcceptable test_host inputs 0 (proposals draft))
derive_action_effects_iff_example =
    derive_action_effects_iff test_host intake bundle draft effects effects_derived

derive_action_effects-IsFlagged_example :
    (found : List EffectRecord) × Perm effects.records found
    × (map (λ (q : EffectRecord). q.action_id) found ≡ action_ids test_host 0 (proposals draft))
    × All IsFlagged found
derive_action_effects-IsFlagged_example =
    derive_action_effects-IsFlagged test_host intake bundle draft effects effects_derived

abbrev removal_ir : ActionIr
removal_ir = record {
  action_id = "a1";
  action_type = "remove_element";
  target_node = "n2";
  normalized_parameters = end;
  class_effects = [];
  structure_effects = "node_removal" ∷ [];
  decision_effects = [];
  required_claims = "geometry" ∷ [];
  required_permissions = "architect_structure_permission" ∷ [];
  decision_state = "resolved";
  hidden_decision_paths = [];
  source_draft_path = str "$.builder_action_proposals[1]";
}

removal_normalized : normalize_action (obj removal) 1 ≡ ok removal_ir
unfolding normalize_action normalize_known unknown_top build_ir contract_for normalized_parameters
    parameter_loop parameter_step append_field class_checks normalize_value canonical
    hidden_decisions sort_texts casefold strip show ends_with insert_field asks_decision
    offers_options is_open_text contains
removal_normalized = refl

tree_change-ok_example :
    (change : TreeChange) × (tree_change test_host tree removal_ir.action_type
        removal_ir.target_node removal_ir.normalized_parameters
      ≡ ok change)
tree_change-ok_example =
    tree_change-ok test_host removal removal_ir
      (normalize_action-IsNormal removal 1 removal_ir removal_normalized) tree

-- A class that is not approved is replaced by one that is: the change needs a permission, which is
-- not there, and nothing is reported.
abbrev replacing_ir : ActionIr
replacing_ir = record {
  action_id = "a3";
  action_type = "apply_class";
  target_node = "n1";
  normalized_parameters = fields_of (
      ("replace_classes", list_of (dict_of (("from", str "old") ∷ ("to", str "card") ∷ []) ∷ []))
      ∷ []);
  class_effects = "class_assignment" ∷ "approved_class_set_change" ∷ [];
  structure_effects = [];
  decision_effects = [];
  required_claims = "geometry" ∷ [];
  required_permissions = [];
  decision_state = "resolved";
  hidden_decision_paths = [];
  source_draft_path = str "$.builder_action_proposals[0]";
}

abbrev replacing_effect : ClassEffect
replacing_effect = record {
  applied_class_names = [];
  introduced_class_names = [];
  removed_approved_class_names = [];
  replacements = ("old", "card") ∷ [];
  changes_approved_class_set = true;
  permission_required = true;
  permission_granted = false;
  preserves_approved_class_set = false;
  diagnostics = [];
}

replacing : class_effect test_host replacing_ir ("card" ∷ []) end end ≡ ok replacing_effect
unfolding class_effect class_permission class_change class_diagnostics replacements_of text_at
    permission_granted any_matches permission_matches permissions sort_texts distinct
replacing = refl

class_effect_iff_example :
    (replacing_effect.diagnostics ≡ [])
    ↔ ClassAuthorized test_host end end ("card" ∷ []) replacing_ir
class_effect_iff_example =
    class_effect_iff test_host end end replacing_ir ("card" ∷ []) replacing_effect replacing

-- A sharp s and a ligature fold to the letters that a word of the forbidden work has.
sharp_s_conflicts : conflicts_with "add_class" true false "no claß changes" ≡ true
unfolding conflicts_with casefold contains
sharp_s_conflicts = refl

ligature_conflicts : conflicts_with "create_element" false true "keep the ﬆructure" ≡ true
unfolding conflicts_with casefold contains
ligature_conflicts = refl
