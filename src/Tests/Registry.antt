-- ===== src/Tests/Registry.antt =====
-- One entry of each table.
use ev4_constructability_eng.Base.{◌≡◌, refl, some, [], ◌∷◌}
use ev4_constructability_eng.Registry.Contract.{ActionContract}
use ev4_constructability_eng.Registry.Actions.{contract_for}
use ev4_constructability_eng.Registry.Claims.{ClaimPolicy, post_builder_runtime, policy, policy_for}
use ev4_constructability_eng.Registry.Closure.{
  IsClosed, PhaseIsKept, contract_for-IsClosed, policy_for-PhaseIsKept,
}

abbrev inspect_contract : ActionContract
inspect_contract = record {
  required_parameter_keys = [];
  optional_parameter_keys = [];
  aliases = [];
  derived_class_effects = [];
  derived_structure_effects = [];
  derived_decision_effects = [];
  required_claims = [];
  required_permissions = [];
}

inspect_found : contract_for "inspect_only" ≡ some inspect_contract
unfolding contract_for
inspect_found = refl

contract_for-IsClosed_example : IsClosed inspect_contract
contract_for-IsClosed_example = contract_for-IsClosed "inspect_only" inspect_contract inspect_found

abbrev responsive_policy : ClaimPolicy
responsive_policy =
    policy "Responsive/Builder runtime" post_builder_runtime "runtime_obligation"
      ("DOWNSTREAM_TEST_OBLIGATION" ∷ "VERIFIED_TOOL_EXECUTION" ∷ []) []
      "R06_RESPONSIVE_ACTION_REQUIRES_STRATEGY_OR_BLOCK" "emit_runtime_obligation"
      "require_complete_obligation" "require_executed_pass" "downstream_validation_required"

responsive_found : policy_for "responsive_behavior" ≡ some responsive_policy
unfolding policy_for
responsive_found = refl

policy_for-PhaseIsKept_example : PhaseIsKept responsive_policy
policy_for-PhaseIsKept_example =
    policy_for-PhaseIsKept "responsive_behavior" responsive_policy responsive_found
