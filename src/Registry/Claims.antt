-- ===== src/Registry/Claims.antt =====
-- validator/claim_policy_registry.py: the phase-aware policy of every claim.
use ev4_constructability_eng.Base.{
  String, Bool, true, false, not, Option, none, some, List, [], ◌∷◌, ◌++◌,
}
use ev4_constructability_eng.Registry.Actions.{contract_for}
use ev4_constructability_eng.Registry.Contract.{ActionContract, find}

pub data LifecyclePhase : Type 0 where
  pre_builder_static pre_builder_capability post_builder_runtime : LifecyclePhase

abbrev pub is_post_builder : LifecyclePhase → Bool
is_post_builder post_builder_runtime = true
is_post_builder _ = false

pub record ClaimPolicy : Type 0 where
  pub authority_owner : String
  pub lifecycle_phase : LifecyclePhase
  pub evaluator_kind : String
  pub allowed_evidence_modes : List String
  pub required_semantics : List String
  pub applicable_rule : String
  pub evaluator : String
  pub builder_handoff_effect : String
  pub final_completion_effect : String
  pub success_modes : List String
  pub missing_status : String
  pub blocking : Bool
  pub may_authorize_builder_handoff : Bool

-- `_policy`
unfoldable pub policy :
    String
    → LifecyclePhase
    → String
    → List String
    → List String
    → String
    → String
    → String
    → String
    → String
    → ClaimPolicy
policy owner phase kind modes semantics rule evaluator handoff completion missing = record {
  authority_owner = owner;
  lifecycle_phase = phase;
  evaluator_kind = kind;
  allowed_evidence_modes = modes;
  required_semantics = semantics;
  applicable_rule = rule;
  evaluator = evaluator;
  builder_handoff_effect = handoff;
  final_completion_effect = completion;
  success_modes = modes;
  missing_status = missing;
  blocking = not (is_post_builder phase);
  may_authorize_builder_handoff = not (is_post_builder phase);
}

-- The static claims.
abbrev pub static_policies : List (String × ClaimPolicy)
static_policies =
    (
      "geometry",
      policy "CE" pre_builder_static "attributed_judgment_or_original_source_parser"
          ("ATTRIBUTED_ENGINEERING_JUDGMENT" ∷ "VERIFIED_ARTIFACT" ∷ [])
          ("anchor_model" ∷ "coordinate_or_layout_model" ∷ "derivation_method" ∷ [])
          "R03_GEOMETRY_MUST_BE_PROVEN" "evaluate_geometry" "require_satisfied" "carry_forward"
          "insufficient_evidence",
    )
    ∷ (
      "overlay_strategy",
      policy "CE" pre_builder_static "attributed_judgment_or_original_source_parser"
          ("ATTRIBUTED_ENGINEERING_JUDGMENT" ∷ "VERIFIED_ARTIFACT" ∷ [])
          ("containment_model" ∷ "positioning_model" ∷ "stacking_model" ∷ "derivation_method" ∷ [])
          "R05_OVERLAY_STRATEGY_MUST_BE_PROVEN" "evaluate_overlay_strategy" "require_satisfied"
          "carry_forward" "insufficient_evidence",
    )
    ∷ (
      "responsive_strategy",
      policy "CE" pre_builder_static "attributed_engineering_judgment"
          ("ATTRIBUTED_ENGINEERING_JUDGMENT" ∷ [])
          ("breakpoint_strategy" ∷ "layout_adaptation" ∷ "derivation_method" ∷ [])
          "R06_RESPONSIVE_ACTION_REQUIRES_STRATEGY_OR_BLOCK" "evaluate_responsive_strategy"
          "require_satisfied" "carry_forward" "insufficient_evidence",
    )
    ∷ (
      "accessibility_strategy",
      policy "CE" pre_builder_static "attributed_engineering_judgment"
          ("ATTRIBUTED_ENGINEERING_JUDGMENT" ∷ [])
          ("semantic_strategy" ∷ "keyboard_strategy" ∷ "derivation_method" ∷ [])
          "R16_ACCESSIBILITY_CLAIM_REQUIRES_EVIDENCE" "evaluate_accessibility_strategy"
          "require_satisfied" "carry_forward" "insufficient_evidence",
    )
    ∷ (
      "placeholder_policy",
      policy "CE" pre_builder_static "attributed_engineering_judgment"
          ("ATTRIBUTED_ENGINEERING_JUDGMENT" ∷ []) ("premises" ∷ "derivation_method" ∷ [])
          "R04_ASSET_SOURCE_OR_PLACEHOLDER" "evaluate_placeholder_policy" "require_satisfied"
          "carry_forward" "insufficient_evidence",
    )
    ∷ (
      "interaction_approval",
      policy "Architect" pre_builder_static "canonical_architect_decision"
          ("VERIFIED_ARCHITECT_DECISION" ∷ []) ([]) "R07_INTERACTION_REQUIRES_APPROVAL"
          "evaluate_architect_decision" "require_satisfied" "carry_forward"
          "architect_decision_required",
    )
    ∷ (
      "dynamic_loop_approval",
      policy "Architect" pre_builder_static "canonical_architect_decision"
          ("VERIFIED_ARCHITECT_DECISION" ∷ []) ([]) "R08_DYNAMIC_LOOP_REQUIRES_APPROVAL"
          "evaluate_architect_decision" "require_satisfied" "carry_forward"
          "architect_decision_required",
    )
    ∷ []

-- The capability claims.
abbrev pub capability_policies : List (String × ClaimPolicy)
capability_policies =
    (
      "asset_source",
      policy "CE" pre_builder_capability "original_source_parser" ("VERIFIED_ARTIFACT" ∷ [])
          ("subject_suitability" ∷ []) "R04_ASSET_SOURCE_OR_PLACEHOLDER" "evaluate_asset_source"
          "require_satisfied" "carry_forward" "insufficient_evidence",
    )
    ∷ (
      "ui_control_path",
      policy "CE" pre_builder_capability "original_source_parser" ("VERIFIED_ARTIFACT" ∷ [])
          ("control_path" ∷ []) "R10_UI_CONTROL_PATH_REQUIRES_EVIDENCE" "evaluate_ui_control_path"
          "require_satisfied" "carry_forward" "insufficient_evidence",
    )
    ∷ []

-- The claims that only the built page can settle.
abbrev pub runtime_policies : List (String × ClaimPolicy)
runtime_policies =
    (
      "responsive_behavior",
      policy "Responsive/Builder runtime" post_builder_runtime "runtime_obligation"
          ("DOWNSTREAM_TEST_OBLIGATION" ∷ "VERIFIED_TOOL_EXECUTION" ∷ []) ([])
          "R06_RESPONSIVE_ACTION_REQUIRES_STRATEGY_OR_BLOCK" "emit_runtime_obligation"
          "require_complete_obligation" "require_executed_pass" "downstream_validation_required",
    )
    ∷ (
      "interaction_validation",
      policy "Builder/runtime validation" post_builder_runtime "runtime_obligation"
          ("DOWNSTREAM_TEST_OBLIGATION" ∷ "VERIFIED_TOOL_EXECUTION" ∷ []) ([])
          "R07_INTERACTION_REQUIRES_APPROVAL" "emit_runtime_obligation"
          "require_complete_obligation" "require_executed_pass" "downstream_validation_required",
    )
    ∷ (
      "accessibility",
      policy "Responsive/accessibility runtime" post_builder_runtime "runtime_obligation"
          ("DOWNSTREAM_TEST_OBLIGATION" ∷ "VERIFIED_TOOL_EXECUTION" ∷ []) ([])
          "R16_ACCESSIBILITY_CLAIM_REQUIRES_EVIDENCE" "emit_runtime_obligation"
          "require_complete_obligation" "require_executed_pass" "downstream_validation_required",
    )
    ∷ (
      "QA",
      policy "Builder/QA runtime" post_builder_runtime "runtime_obligation"
          ("DOWNSTREAM_TEST_OBLIGATION" ∷ "VERIFIED_TOOL_EXECUTION" ∷ []) ([])
          "R17_QA_REQUIRES_EXECUTION_EVIDENCE" "emit_runtime_obligation"
          "require_complete_obligation" "require_executed_pass" "downstream_validation_required",
    )
    ∷ []

abbrev pub claim_policies : List (String × ClaimPolicy)
claim_policies = static_policies ++ (capability_policies ++ runtime_policies)

-- `CLAIM_POLICIES.get(claim_id)`
unfoldable pub policy_for : String → Option ClaimPolicy
policy_for claim_id = find claim_id claim_policies

-- `PROPOSED_ACTION_HINTS`
abbrev pub proposed_action_hints : List (String × List String)
proposed_action_hints =
    ("overlay", "geometry" ∷ "overlay_strategy" ∷ [])
    ∷ ("absolute", "geometry" ∷ "overlay_strategy" ∷ [])
    ∷ ("connector", "geometry" ∷ [])
    ∷ ("responsive", "responsive_strategy" ∷ "responsive_behavior" ∷ [])
    ∷ ("mobile", "responsive_strategy" ∷ "responsive_behavior" ∷ [])
    ∷ (
      "interaction",
      "interaction_approval" ∷ "accessibility_strategy" ∷ "accessibility" ∷ "interaction_validation"
          ∷ [],
    )
    ∷ ("dynamic loop", "dynamic_loop_approval" ∷ [])
    ∷ ("asset", "asset_source" ∷ [])
    ∷ ("placeholder", "placeholder_policy" ∷ [])
    ∷ ("ui control", "ui_control_path" ∷ [])
    ∷ ("accessibility", "accessibility_strategy" ∷ "accessibility" ∷ [])
    ∷ []

abbrev claims_of : Option ActionContract → Option (List String)
claims_of none = none
claims_of (some c) = some c.required_claims

-- `derive_action_claims`
unfoldable pub derive_action_claims : String → Option (List String)
unfolding contract_for
derive_action_claims action_type = claims_of (contract_for action_type)

abbrev is_runtime_policy : Option ClaimPolicy → Bool
is_runtime_policy none = false
is_runtime_policy (some p) = is_post_builder p.lifecycle_phase

-- `is_post_builder_claim`
unfoldable pub is_post_builder_claim : String → Bool
unfolding policy_for policy
is_post_builder_claim claim_id = is_runtime_policy (policy_for claim_id)
