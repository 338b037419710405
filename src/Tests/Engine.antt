-- ===== src/Tests/Engine.antt =====
-- The validation of concrete documents, with a schema validator that finds no error.
use ev4_constructability_eng.Base.{◌≡◌, refl, true, none, [], ◌∷◌}
use ev4_constructability_eng.Base.Text.{lower, strip}
use ev4_constructability_eng.Base.Python.{ok}
use ev4_constructability_eng.Json.{Fields, bool, dict_or_empty, null, py_eq, str}
use ev4_constructability_eng.Json.Build.{dict_of, fields_of, texts_of}
use ev4_constructability_eng.Rules.Document.{
  blocking_dependencies, builder_decisions_required, builder_package, collect, nodes,
  package_status, review, review_status, same_class_contract, status, strategy_map,
}
use ev4_constructability_eng.Rules.Unresolved.{contains_unresolved_decision}
use ev4_constructability_eng.Rules.Contracts.{
  architect_contract, first_batch_contract, mode_contract, schema_contract, strategy_map_contract,
}
use ev4_constructability_eng.Rules.Nodes.{
  approval_violations, blocked_node_violations, construction_violations, evidence_violations, flag,
  node_violations, nodes_violations, proof_object, responsive_violations,
}
use ev4_constructability_eng.Rules.Evaluate.{
  assumptions_violations, confirmation_violations, evaluate_document, executable_violations,
  lock_violations, logged_assumption_violations, qa_violations, readiness_violations,
  reviewed_violations,
}
use ev4_constructability_eng.Engine.Preflight.{
  carried_violations, mode_preflight_violations, package_carrier_violations,
  package_requires_reference_carriers, reference_carriers, reference_paradigm_preflight_violations,
  structure_map_violations, visual_parity_requested,
}
use ev4_constructability_eng.Engine.PreflightLaws.{
  ReferenceIsLocked, reference_paradigm_preflight_violations_iff,
}
use ev4_constructability_eng.Engine.Schemas.{
  SchemaValidator, collect_schema_errors, kind_errors, schema_validate, sort_errors,
}
use ev4_constructability_eng.Engine.Validate.{
  ValidationResult, rule_violations, validate_document, validate_rules,
}
use ev4_constructability_eng.Engine.ValidateLaws.{HasPassed, validate_document-HasPassed}
use ev4_constructability_eng.Tests.Data.{ready_document}

abbrev no_errors : SchemaValidator
no_errors = λ path document. []

abbrev ready_fields : Fields
ready_fields = dict_or_empty ready_document

abbrev ready_result : ValidationResult
ready_result = record {
  passed = true;
  mode = "full";
  schema_errors = [];
  violations = [];
  rules_violated = [];
  expected_pass = null;
  matches_expected = none;
}

ready_passes : validate_document no_errors ready_fields "full" ≡ ok ready_result
unfolding validate_document validate_rules rule_violations mode_preflight_violations
    reference_paradigm_preflight_violations visual_parity_requested schema_validate kind_errors
    collect_schema_errors sort_errors evaluate_document collect status package_status review_status
    review builder_package strategy_map mode_contract schema_contract architect_contract
    strategy_map_contract first_batch_contract readiness_violations reviewed_violations
    executable_violations qa_violations logged_assumption_violations assumptions_violations
    blocking_dependencies builder_decisions_required nodes nodes_violations node_violations
    construction_violations responsive_violations approval_violations evidence_violations
    blocked_node_violations flag proof_object same_class_contract confirmation_violations
    lock_violations contains_unresolved_decision strip lower py_eq
ready_passes = refl

validate_document-HasPassed_example : HasPassed no_errors ready_fields "full"
validate_document-HasPassed_example =
    validate_document-HasPassed no_errors ready_fields "full" ready_result refl ready_passes refl

abbrev parity_document : Fields
parity_document = fields_of (
    ("visual_parity_build", bool true)
    ∷ (
      "builder_executable_package",
      dict_of (
          (
            "reference_paradigm_lock",
            dict_of (("paradigm_locked", bool true) ∷ ("layout_paradigm", str "grid") ∷ []),
          )
          ∷ (
            "paradigm_to_structure_map",
            dict_of (("first_batch_requirements", texts_of ("wrapper" ∷ [])) ∷ []),
          )
          ∷ []),
    )
    ∷ [])

parity_silent : reference_paradigm_preflight_violations parity_document ≡ []
unfolding reference_paradigm_preflight_violations visual_parity_requested flag
    package_carrier_violations package_requires_reference_carriers reference_carriers
    carried_violations structure_map_violations
parity_silent = refl

parity_requested : visual_parity_requested parity_document ≡ true
unfolding visual_parity_requested flag
parity_requested = refl

reference_paradigm_preflight_violations_iff_example : ReferenceIsLocked parity_document
reference_paradigm_preflight_violations_iff_example =
    (reference_paradigm_preflight_violations_iff parity_document).0 parity_silent parity_requested
