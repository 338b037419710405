-- ===== src/Effects/StructureEffect.antt =====
-- validator/action_effects.py, `_structure_effect`.
use ev4_constructability_eng.Base.{
  String, Bool, true, false, not, Option, none, some, List, [], ◌∷◌, ◌++◌, map, ◌==◌, if◌then◌else◌,
  str_in,
}
use ev4_constructability_eng.Base.Python.{Py, ok, ◌>>=◌}
use ev4_constructability_eng.Json.{Json, null, Fields, value_at}
use ev4_constructability_eng.Json.Host.{Host}
use ev4_constructability_eng.Actions.Normalize.{ActionIr}
use ev4_constructability_eng.Effects.ClassEffect.{sorted_set, text_at}
use ev4_constructability_eng.Effects.Inputs.{NodeMap, latest, node_ids}
use ev4_constructability_eng.Effects.Permissions.{Request, permission_granted}
use ev4_constructability_eng.Effects.Records.{
  EffectDiagnostic, ParentChange, StructureEffect, new_parent_outside_build_tree,
  parent_outside_build_tree, produced_node_already_exists, structure_permission_required,
  target_outside_build_tree,
}

-- What an action does to the build tree, with the diagnostics that this shows.
pub record TreeChange : Type 0 where
  pub produced : List String
  pub removed : List String
  pub parent_changes : List ParentChange
  pub identity_changes : List (String × String)
  pub diagnostics : List EffectDiagnostic

abbrev pub no_change : TreeChange
no_change = record {
  produced = [];
  removed = [];
  parent_changes = [];
  identity_changes = [];
  diagnostics = [];
}

-- A diagnostic if a condition holds.
abbrev pub report_if : Bool → EffectDiagnostic → List EffectDiagnostic
report_if b d = if b then d ∷ [] else []

abbrev pub create_change : NodeMap → String → String → TreeChange
create_change tree new_node parent = record {
  produced = new_node ∷ [];
  removed = [];
  parent_changes =
      if str_in parent (node_ids tree)
      then record { node_id = new_node; from_parent = null; to_parent = parent } ∷ []
      else [];
  identity_changes = [];
  diagnostics =
      report_if (str_in new_node (node_ids tree)) produced_node_already_exists
      ++ report_if (not (str_in parent (node_ids tree))) parent_outside_build_tree;
}

abbrev pub remove_change : String → TreeChange
remove_change target = record {
  produced = [];
  removed = target ∷ [];
  parent_changes = [];
  identity_changes = [];
  diagnostics = [];
}

-- `tree.get(target, {}).get("parent_node_id")`
abbrev pub parent_of : Option Fields → Json
parent_of none = null
parent_of (some node) = value_at "parent_node_id" node

abbrev pub reparent_change : NodeMap → String → String → TreeChange
reparent_change tree target new_parent = record {
  produced = [];
  removed = [];
  parent_changes =
      if str_in new_parent (node_ids tree)
      then record {
        node_id = target;
        from_parent = parent_of (latest target tree);
        to_parent = new_parent;
      }
        ∷ []
      else [];
  identity_changes = [];
  diagnostics = report_if (not (str_in new_parent (node_ids tree))) new_parent_outside_build_tree;
}

abbrev pub replace_change : String → String → TreeChange
replace_change target replacement = record {
  produced = replacement ∷ [];
  removed = target ∷ [];
  parent_changes = [];
  identity_changes = (target, replacement) ∷ [];
  diagnostics = [];
}

abbrev pub rename_change : String → String → TreeChange
rename_change target new_node = record {
  produced = [];
  removed = [];
  parent_changes = [];
  identity_changes = (target, new_node) ∷ [];
  diagnostics = [];
}

-- The nodes that a change touches.
abbrev pub changed_nodes : TreeChange → List String
changed_nodes change =
    change.produced
    ++ (change.removed
        ++ (map (λ (p : ParentChange). p.node_id) change.parent_changes
            ++ (map (λ i. i.0) change.identity_changes ++ map (λ i. i.1) change.identity_changes)))

module _ (host : Host) where
  -- The cases of `_structure_effect` by the action's type.
  unfoldable pub tree_change : NodeMap → String → String → Fields → Py TreeChange
  tree_change tree action_type target parameters =
      if action_type == "create_element"
      then (do
        new_node ← text_at host "produced_node_id" parameters
        parent ← text_at host "parent_node_id" parameters
        ok (create_change tree new_node parent))
      else if str_in action_type ("remove_element" ∷ "delete_element" ∷ [])
      then ok (remove_change target)
      else if str_in action_type ("reparent_element" ∷ "move_element" ∷ [])
      then (do
        new_parent ← text_at host "new_parent_node_id" parameters
        ok (reparent_change tree target new_parent))
      else if action_type == "replace_element"
      then (do
        replacement ← text_at host "replacement_node_id" parameters
        ok (replace_change target replacement))
      else if action_type == "rename_node"
      then (do new_node ← text_at host "new_node_id" parameters; ok (rename_change target new_node))
      else ok no_change

  abbrev pub structure_request : ActionIr → TreeChange → Request
  structure_request ir change = record {
    subject_ref = ir.target_node;
    action_type = ir.action_type;
    effect_kind = "structure";
    class_names = [];
    node_ids = changed_nodes change;
  }

  unfoldable pub structure_diagnostics :
      NodeMap → String → TreeChange → Bool → List EffectDiagnostic
  structure_diagnostics tree target change granted =
      report_if (not (str_in target (node_ids tree))) target_outside_build_tree
      ++ (change.diagnostics
          ++ report_if (not granted)
              (structure_permission_required (sorted_set (changed_nodes change))))

  abbrev pub build_structure_effect : NodeMap → String → TreeChange → Bool → StructureEffect
  build_structure_effect tree target change granted = record {
    produced_node_ids = sorted_set change.produced;
    removed_node_ids = sorted_set change.removed;
    parent_changes = change.parent_changes;
    identity_changes = change.identity_changes;
    changes_build_tree = true;
    permission_required = true;
    permission_granted = granted;
    preserves_build_tree = false;
    diagnostics = structure_diagnostics tree target change granted;
  }

  -- `_structure_effect`
  unfoldable pub structure_effect : ActionIr → NodeMap → Fields → Fields → Py StructureEffect
  structure_effect ir tree architect_intake source_bundle = do
    change ← tree_change tree ir.action_type ir.target_node ir.normalized_parameters
    granted ← permission_granted host architect_intake source_bundle (structure_request ir change)
    ok (build_structure_effect tree ir.target_node change granted)
