-- ===== src/Effects/Records.antt =====
-- validator/action_effects.py: the dicts that describe the effects of an action, and the
-- diagnostics, a constructor for each code. A label that is the same in every dict of a kind
-- (`kind`, `result_kind`) is the record type.
use ev4_constructability_eng.Base.{String, Bool, Option, List}
use ev4_constructability_eng.Base.Python.{ActionIrError}
use ev4_constructability_eng.Json.{Json}
use ev4_constructability_eng.Actions.Normalize.{ActionIr}

pub data EffectDiagnostic : Type 0 where
  unapproved_class approved_class_removed_or_replaced :
      (class_names : List String) → EffectDiagnostic
  target_outside_build_tree produced_node_already_exists : EffectDiagnostic
  parent_outside_build_tree new_parent_outside_build_tree : EffectDiagnostic
  structure_permission_required : (node_ids : List String) → EffectDiagnostic
  hidden_builder_decision : (paths : List String) → EffectDiagnostic
  forbidden_work_conflict : (forbidden_work : List String) → EffectDiagnostic
  action_invalid : EffectDiagnostic
  parameters_invalid : (message : ActionIrError) → EffectDiagnostic

-- `diagnostic["code"]`
abbrev pub code_of : EffectDiagnostic → String
code_of (unapproved_class ns) = "CE_ACTION_EFFECT_UNAPPROVED_CLASS"
code_of (approved_class_removed_or_replaced ns) =
    "CE_ACTION_EFFECT_APPROVED_CLASS_REMOVED_OR_REPLACED"
code_of target_outside_build_tree = "CE_ACTION_EFFECT_TARGET_OUTSIDE_BUILD_TREE"
code_of produced_node_already_exists = "CE_ACTION_EFFECT_PRODUCED_NODE_ALREADY_EXISTS"
code_of parent_outside_build_tree = "CE_ACTION_EFFECT_PARENT_OUTSIDE_BUILD_TREE"
code_of new_parent_outside_build_tree = "CE_ACTION_EFFECT_NEW_PARENT_OUTSIDE_BUILD_TREE"
code_of (structure_permission_required ns) = "CE_ACTION_EFFECT_STRUCTURE_PERMISSION_REQUIRED"
code_of (hidden_builder_decision ps) = "CE_ACTION_EFFECT_HIDDEN_BUILDER_DECISION"
code_of (forbidden_work_conflict ws) = "CE_ACTION_EFFECT_FORBIDDEN_WORK_CONFLICT"
code_of action_invalid = "CE_ACTION_EFFECT_ACTION_INVALID"
code_of (parameters_invalid e) = "CE_ACTION_EFFECT_PARAMETERS_INVALID"

pub record ClassEffect : Type 0 where
  pub applied_class_names : List String
  pub introduced_class_names : List String
  pub removed_approved_class_names : List String
  pub replacements : List (String × String)
  pub changes_approved_class_set : Bool
  pub permission_required : Bool
  pub permission_granted : Bool
  pub preserves_approved_class_set : Bool
  pub diagnostics : List EffectDiagnostic

-- The old parent is whatever the accepted node says, or null.
pub record ParentChange : Type 0 where
  pub node_id : String
  pub from_parent : Json
  pub to_parent : String

pub record StructureEffect : Type 0 where
  pub produced_node_ids : List String
  pub removed_node_ids : List String
  pub parent_changes : List ParentChange
  pub identity_changes : List (String × String)
  pub changes_build_tree : Bool
  pub permission_required : Bool
  pub permission_granted : Bool
  pub preserves_build_tree : Bool
  pub diagnostics : List EffectDiagnostic

pub record DraftDisclosure : Type 0 where
  pub requires_class_change : Bool
  pub requires_structure_change : Bool
  pub architect_decomposition_permission : Bool

-- The record of an action; one that does not normalize has no disclosure.
pub record EffectRecord : Type 0 where
  pub action_id : String
  pub action_type : String
  pub target_node : String
  pub action_ir : Option ActionIr
  pub draft_disclosure : Option DraftDisclosure
  pub class_effect : Option ClassEffect
  pub structure_effect : Option StructureEffect
  pub forbidden_work_conflicts : List String
  pub diagnostics : List EffectDiagnostic
  pub changes_class_assignment : Bool
  pub changes_approved_class_set : Bool
  pub changes_structure : Bool
  pub preserves_approved_class_set : Bool
  pub preserves_build_tree : Bool
  pub blocked : Bool

-- The identity, the type and the target of an action.
abbrev pub ActionRef : Type 0
ActionRef = String × String × String

-- A diagnostic of the whole draft: that of an action names the action.
pub record Diagnostic : Type 0 where
  pub finding : EffectDiagnostic
  pub action : Option ActionRef

pub record ActionEffects : Type 0 where
  pub records : List EffectRecord
  pub diagnostics : List Diagnostic
  pub complete : Bool
