-- ===== src/Effects/BuildRecord.antt =====
-- validator/action_effects.py: `_forbidden_conflicts` and the record of a normalized action.
use ev4_constructability_eng.Base.{
  String, Bool, true, false, not, ◌&&◌, ◌||◌, Option, none, some, List, [], ◌∷◌, ◌++◌, any,
  is_empty, keep, ◌==◌, if◌then◌else◌,
}
use ev4_constructability_eng.Base.Text.{casefold, contains}
use ev4_constructability_eng.Json.{Fields, truthy, value_at}
use ev4_constructability_eng.Actions.Normalize.{ActionIr}
use ev4_constructability_eng.Effects.ClassEffect.{sorted_set}
use ev4_constructability_eng.Effects.Inputs.{NodeMap, latest}
use ev4_constructability_eng.Effects.Records.{
  ClassEffect, DraftDisclosure, EffectDiagnostic, EffectRecord, StructureEffect,
  forbidden_work_conflict, hidden_builder_decision,
}

abbrev pub structure_tokens : List String
structure_tokens = "structure" ∷ "build_tree" ∷ "build tree" ∷ "redesign" ∷ "identity" ∷ []

-- One entry of the forbidden work forbids an action of a type with some changes.
unfoldable pub conflicts_with : String → Bool → Bool → String → Bool
conflicts_with action_type class_changed structure_changed item =
    let normalized = casefold item in
    (class_changed && (contains normalized "class" || contains normalized "redesign"))
    || ((structure_changed && any (contains normalized) structure_tokens)
        || ((structure_changed
              && (action_type == "create_element" && contains normalized "invent_geometry"))
            || ((action_type == "attach_asset" && contains normalized "asset")
                || ((action_type == "set_responsive" && contains normalized "breakpoint")
                    || (action_type == "bind_dynamic_loop" && contains normalized "dynamic")))))

-- `_forbidden_conflicts`
unfoldable pub forbidden_conflicts : String → Bool → Bool → List String → List String
forbidden_conflicts action_type class_changed structure_changed forbidden_work =
    sorted_set (keep (conflicts_with action_type class_changed structure_changed) forbidden_work)

-- `bool(reviewed.get(target, {}).get(key, False))`
abbrev pub disclosed : String → Option Fields → Bool
disclosed key none = false
disclosed key (some node) = truthy (value_at key node)

abbrev pub draft_disclosure : NodeMap → String → DraftDisclosure
draft_disclosure reviewed target = record {
  requires_class_change = disclosed "requires_class_change" (latest target reviewed);
  requires_structure_change = disclosed "requires_structure_change" (latest target reviewed);
  architect_decomposition_permission =
      disclosed "architect_decomposition_permission" (latest target reviewed);
}

-- What an effect that may be absent reports and changes.
abbrev pub class_reports : Option ClassEffect → List EffectDiagnostic
class_reports none = []
class_reports (some e) = e.diagnostics

abbrev pub structure_reports : Option StructureEffect → List EffectDiagnostic
structure_reports none = []
structure_reports (some e) = e.diagnostics

abbrev pub classes_changed : Option ClassEffect → Bool
classes_changed none = false
classes_changed (some e) = e.changes_approved_class_set

abbrev pub tree_changed : Option StructureEffect → Bool
tree_changed none = false
tree_changed (some e) = e.changes_build_tree

abbrev pub has_effect : Option ClassEffect → Bool
has_effect none = false
has_effect (some e) = true

abbrev pub hidden_reports : ActionIr → List EffectDiagnostic
hidden_reports ir =
    if ir.decision_state == "resolved"
    then []
    else hidden_builder_decision ir.hidden_decision_paths ∷ []

abbrev pub conflict_reports : List String → List EffectDiagnostic
conflict_reports [] = []
conflict_reports (w ∷ ws) = forbidden_work_conflict (w ∷ ws) ∷ []

abbrev pub conflicts_of :
    ActionIr → Option ClassEffect → Option StructureEffect → List String → List String
conflicts_of ir classes structure forbidden_work =
    forbidden_conflicts ir.action_type (classes_changed classes) (tree_changed structure)
      forbidden_work

-- The diagnostics of a normalized action, in the order in which the code appends them.
unfoldable pub record_reports :
    ActionIr → Option ClassEffect → Option StructureEffect → List String → List EffectDiagnostic
record_reports ir classes structure forbidden_work =
    hidden_reports ir
    ++ (conflict_reports (conflicts_of ir classes structure forbidden_work)
        ++ (class_reports classes ++ structure_reports structure))

unfoldable pub build_record :
    NodeMap → ActionIr → Option ClassEffect → Option StructureEffect → List String → EffectRecord
build_record reviewed ir classes structure forbidden_work = record {
  action_id = ir.action_id;
  action_type = ir.action_type;
  target_node = ir.target_node;
  action_ir = some ir;
  draft_disclosure = some (draft_disclosure reviewed ir.target_node);
  class_effect = classes;
  structure_effect = structure;
  forbidden_work_conflicts = conflicts_of ir classes structure forbidden_work;
  diagnostics = record_reports ir classes structure forbidden_work;
  changes_class_assignment = has_effect classes;
  changes_approved_class_set = classes_changed classes;
  changes_structure = tree_changed structure;
  preserves_approved_class_set = not (classes_changed classes);
  preserves_build_tree = not (tree_changed structure);
  blocked = not (is_empty (record_reports ir classes structure forbidden_work));
}
