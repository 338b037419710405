-- ===== src/Registry/StructureActions.antt =====
-- validator/action_contract_registry.py: the actions that change the build tree.
use ev4_constructability_eng.Base.{String, List, [], ◌∷◌}
use ev4_constructability_eng.Registry.Contract.{ActionContract}

-- From `create_element` to `rename_node`.
abbrev pub structure_contracts : List (String × ActionContract)
structure_contracts =
    (
      "create_element",
      record {
        required_parameter_keys = "produced_node_id" ∷ "parent_node_id" ∷ "element_type" ∷ [];
        optional_parameter_keys = [];
        aliases = ("new_node_id", "produced_node_id") ∷ [];
        derived_class_effects = [];
        derived_structure_effects = "node_creation" ∷ "parent_child_change" ∷ [];
        derived_decision_effects = [];
        required_claims = "geometry" ∷ [];
        required_permissions = "architect_structure_permission" ∷ [];
      },
    )
    ∷ (
      "remove_element",
      record {
        required_parameter_keys = [];
        optional_parameter_keys = [];
        aliases = [];
        derived_class_effects = [];
        derived_structure_effects = "node_removal" ∷ [];
        derived_decision_effects = [];
        required_claims = "geometry" ∷ [];
        required_permissions = "architect_structure_permission" ∷ [];
      },
    )
    ∷ (
      "delete_element",
      record {
        required_parameter_keys = [];
        optional_parameter_keys = [];
        aliases = [];
        derived_class_effects = [];
        derived_structure_effects = "node_removal" ∷ [];
        derived_decision_effects = [];
        required_claims = "geometry" ∷ [];
        required_permissions = "architect_structure_permission" ∷ [];
      },
    )
    ∷ (
      "reparent_element",
      record {
        required_parameter_keys = "new_parent_node_id" ∷ [];
        optional_parameter_keys = [];
        aliases = [];
        derived_class_effects = [];
        derived_structure_effects = "parent_child_change" ∷ [];
        derived_decision_effects = [];
        required_claims = "geometry" ∷ [];
        required_permissions = "architect_structure_permission" ∷ [];
      },
    )
    ∷ (
      "move_element",
      record {
        required_parameter_keys = "new_parent_node_id" ∷ [];
        optional_parameter_keys = [];
        aliases = [];
        derived_class_effects = [];
        derived_structure_effects = "parent_child_change" ∷ [];
        derived_decision_effects = [];
        required_claims = "geometry" ∷ [];
        required_permissions = "architect_structure_permission" ∷ [];
      },
    )
    ∷ (
      "replace_element",
      record {
        required_parameter_keys = "replacement_node_id" ∷ [];
        optional_parameter_keys = "element_type" ∷ [];
        aliases = ("new_node_id", "replacement_node_id") ∷ [];
        derived_class_effects = [];
        derived_structure_effects = "node_replacement" ∷ "identity_change" ∷ [];
        derived_decision_effects = [];
        required_claims = "geometry" ∷ [];
        required_permissions = "architect_structure_permission" ∷ [];
      },
    )
    ∷ (
      "rename_node",
      record {
        required_parameter_keys = "new_node_id" ∷ [];
        optional_parameter_keys = [];
        aliases = [];
        derived_class_effects = [];
        derived_structure_effects = "identity_change" ∷ [];
        derived_decision_effects = [];
        required_claims = "geometry" ∷ [];
        required_permissions = "architect_structure_permission" ∷ [];
      },
    )
    ∷ []
