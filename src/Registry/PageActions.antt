-- ===== src/Registry/PageActions.antt =====
-- validator/action_contract_registry.py: the actions that leave the build tree as it is.
use ev4_constructability_eng.Base.{String, List, [], ◌∷◌}
use ev4_constructability_eng.Registry.Contract.{ActionContract}

-- From `preserve_existing` to `configure_overlay`.
abbrev pub layout_contracts : List (String × ActionContract)
layout_contracts =
    (
      "preserve_existing",
      record {
        required_parameter_keys = [];
        optional_parameter_keys = [];
        aliases = [];
        derived_class_effects = [];
        derived_structure_effects = [];
        derived_decision_effects = [];
        required_claims = [];
        required_permissions = [];
      },
    )
    ∷ (
      "inspect_only",
      record {
        required_parameter_keys = [];
        optional_parameter_keys = [];
        aliases = [];
        derived_class_effects = [];
        derived_structure_effects = [];
        derived_decision_effects = [];
        required_claims = [];
        required_permissions = [];
      },
    )
    ∷ (
      "configure_layout",
      record {
        required_parameter_keys = "layout_model" ∷ [];
        optional_parameter_keys = "gap" ∷ "alignment" ∷ "direction" ∷ [];
        aliases = ("layout", "layout_model") ∷ [];
        derived_class_effects = [];
        derived_structure_effects = [];
        derived_decision_effects = [];
        required_claims = "geometry" ∷ [];
        required_permissions = [];
      },
    )
    ∷ (
      "set_style",
      record {
        required_parameter_keys = "properties" ∷ [];
        optional_parameter_keys = [];
        aliases = ("style", "properties") ∷ [];
        derived_class_effects = [];
        derived_structure_effects = [];
        derived_decision_effects = [];
        required_claims = "geometry" ∷ [];
        required_permissions = [];
      },
    )
    ∷ (
      "apply_class",
      record {
        required_parameter_keys = [];
        optional_parameter_keys = "class_names" ∷ "remove_classes" ∷ "replace_classes" ∷ [];
        aliases =
            ("class_name", "class_names")
            ∷ ("add_classes", "class_names")
            ∷ ("remove_class", "remove_classes")
            ∷ ("remove_class_names", "remove_classes")
            ∷ ("replace_class", "replace_classes")
            ∷ ("rename_class", "replace_classes")
            ∷ ("class_replacements", "replace_classes")
            ∷ [];
        derived_class_effects = "class_assignment" ∷ "approved_class_set_change" ∷ [];
        derived_structure_effects = [];
        derived_decision_effects = [];
        required_claims = "geometry" ∷ [];
        required_permissions = "architect_class_permission_when_set_changes" ∷ [];
      },
    )
    ∷ (
      "configure_overlay",
      record {
        required_parameter_keys = "containment_model" ∷ "positioning_model" ∷ "stacking_model" ∷ [];
        optional_parameter_keys = [];
        aliases = [];
        derived_class_effects = [];
        derived_structure_effects = [];
        derived_decision_effects = [];
        required_claims = "geometry" ∷ "overlay_strategy" ∷ [];
        required_permissions = [];
      },
    )
    ∷ []

-- From `set_responsive` to `run_qa`.
abbrev pub behaviour_contracts : List (String × ActionContract)
behaviour_contracts =
    (
      "set_responsive",
      record {
        required_parameter_keys = "layout_adaptation" ∷ [];
        optional_parameter_keys = "breakpoint_strategy" ∷ "target_identity" ∷ "viewports" ∷ [];
        aliases = ("breakpoints", "breakpoint_strategy") ∷ ("layout", "layout_adaptation") ∷ [];
        derived_class_effects = [];
        derived_structure_effects = [];
        derived_decision_effects = [];
        required_claims = "responsive_strategy" ∷ "responsive_behavior" ∷ [];
        required_permissions = [];
      },
    )
    ∷ (
      "configure_interaction",
      record {
        required_parameter_keys = "interaction_model" ∷ [];
        optional_parameter_keys = "event" ∷ "target_identity" ∷ [];
        aliases = ("interaction", "interaction_model") ∷ [];
        derived_class_effects = [];
        derived_structure_effects = [];
        derived_decision_effects = "interaction_behavior" ∷ [];
        required_claims =
            "interaction_approval" ∷ "accessibility_strategy" ∷ "accessibility"
            ∷ "interaction_validation" ∷ [];
        required_permissions = "architect_interaction_approval" ∷ [];
      },
    )
    ∷ (
      "bind_dynamic_loop",
      record {
        required_parameter_keys = "binding_map" ∷ [];
        optional_parameter_keys = [];
        aliases = ("bindings", "binding_map") ∷ [];
        derived_class_effects = [];
        derived_structure_effects = [];
        derived_decision_effects = "dynamic_loop_binding" ∷ [];
        required_claims = "dynamic_loop_approval" ∷ [];
        required_permissions = "architect_dynamic_loop_approval" ∷ [];
      },
    )
    ∷ (
      "attach_asset",
      record {
        required_parameter_keys = "asset_ref" ∷ [];
        optional_parameter_keys = "placement" ∷ [];
        aliases = ("asset_id", "asset_ref") ∷ [];
        derived_class_effects = [];
        derived_structure_effects = [];
        derived_decision_effects = [];
        required_claims = "asset_source" ∷ [];
        required_permissions = [];
      },
    )
    ∷ (
      "use_placeholder",
      record {
        required_parameter_keys = "placeholder_policy" ∷ [];
        optional_parameter_keys = [];
        aliases = ("policy", "placeholder_policy") ∷ [];
        derived_class_effects = [];
        derived_structure_effects = [];
        derived_decision_effects = [];
        required_claims = "placeholder_policy" ∷ [];
        required_permissions = [];
      },
    )
    ∷ (
      "set_ui_control",
      record {
        required_parameter_keys = "control_path" ∷ [];
        optional_parameter_keys = [];
        aliases = ("ui_control_path", "control_path") ∷ [];
        derived_class_effects = [];
        derived_structure_effects = [];
        derived_decision_effects = [];
        required_claims = "ui_control_path" ∷ [];
        required_permissions = [];
      },
    )
    ∷ (
      "run_qa",
      record {
        required_parameter_keys = "qa_scope" ∷ [];
        optional_parameter_keys = "target_identity" ∷ [];
        aliases = ("suite", "qa_scope") ∷ [];
        derived_class_effects = [];
        derived_structure_effects = [];
        derived_decision_effects = [];
        required_claims = "QA" ∷ [];
        required_permissions = [];
      },
    )
    ∷ []
