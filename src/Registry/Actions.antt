-- ===== src/Registry/Actions.antt =====
-- validator/action_contract_registry.py: the closed vocabulary of Builder actions.
use ev4_constructability_eng.Base.{String, Option, List, [], ◌∷◌, ◌++◌}
use ev4_constructability_eng.Registry.Contract.{ActionContract, find}
use ev4_constructability_eng.Registry.PageActions.{layout_contracts, behaviour_contracts}
use ev4_constructability_eng.Registry.StructureActions.{structure_contracts}

abbrev pub action_contracts : List (String × ActionContract)
action_contracts = layout_contracts ++ (behaviour_contracts ++ structure_contracts)

-- `ACTION_CONTRACTS.get(action_type)`
unfoldable pub contract_for : String → Option ActionContract
contract_for action_type = find action_type action_contracts

abbrev pub effect_parameter_keys : List String
effect_parameter_keys =
    "class_name" ∷ "class_names" ∷ "add_classes" ∷ "remove_class" ∷ "remove_classes"
    ∷ "remove_class_names" ∷ "replace_class" ∷ "replace_classes" ∷ "rename_class"
    ∷ "class_replacements" ∷ "produced_node_id" ∷ "new_node_id" ∷ "replacement_node_id"
    ∷ "parent_node_id" ∷ "new_parent_node_id" ∷ "element_type" ∷ "requires_decision"
    ∷ "decision_required" ∷ []
