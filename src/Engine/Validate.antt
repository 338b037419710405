-- ===== src/Engine/Validate.antt =====
-- validator/engine.py: `validate_document`, without the two lists that compare the rules of a
-- fixture with the expected ones.
use ev4_constructability_eng.Base.{
  String, ◌<>◌, Bool, not, ◌&&◌, ◌||◌, Option, none, some, List, [], is_empty, map, str_in,
  if◌then◌else◌,
}
use ev4_constructability_eng.Base.Python.{Py, ok, ◌>>=◌, ◌>>◌, ensure, value_error}
use ev4_constructability_eng.Json.{
  Json, null, obj, end, Fields, get, is_null, or_else, truthy, value_at,
}
use ev4_constructability_eng.Rules.Document.{ConstructabilityViolation, extend, validation_modes}
use ev4_constructability_eng.Rules.Evaluate.{evaluate_document}
use ev4_constructability_eng.Engine.Preflight.{
  mode_preflight_violations, reference_paradigm_preflight_violations,
}
use ev4_constructability_eng.Engine.Schemas.{SchemaValidator, is_verified_payload, schema_validate}

pub record ValidationResult : Type 0 where
  pub passed : Bool
  pub mode : String
  pub schema_errors : List String
  pub violations : List ConstructabilityViolation
  pub rules_violated : List String
  pub expected_pass : Json
  pub matches_expected : Option Bool

-- The three sources of rule violations, in the order they are extended.
unfoldable pub rule_violations : Fields → String → Py (List ConstructabilityViolation)
rule_violations document mode = extend (mode_preflight_violations document mode) (
    extend (ok (reference_paradigm_preflight_violations document))
      (evaluate_document (obj document) mode))

-- `passed is bool(expected_pass)`, where an expectation is given
abbrev matches : Json → Bool → Option Bool
matches expected passed =
    if is_null expected
    then none
    else some ((passed && truthy expected) || (not passed && not (truthy expected)))

abbrev pub payload_result : String → List String → ValidationResult
payload_result mode schema_errors = record {
  passed = is_empty schema_errors;
  mode = mode;
  schema_errors = schema_errors;
  violations = [];
  rules_violated = [];
  expected_pass = null;
  matches_expected = none;
}

abbrev pub document_result :
    String → List String → List ConstructabilityViolation → Json → ValidationResult
document_result mode schema_errors violations expected =
    let passed = is_empty schema_errors && is_empty violations in
    record {
      passed = passed;
      mode = mode;
      schema_errors = schema_errors;
      violations = violations;
      rules_violated = map (λ v. v.rule_id) violations;
      expected_pass = expected;
      matches_expected = matches expected passed;
    }

module _ (iter_errors : SchemaValidator) where
  -- The branch of a document that is no verified payload.
  unfoldable pub validate_rules : Fields → String → Py ValidationResult
  validate_rules document mode = do
    violations ← rule_violations document mode
    expected ← get "validation_pass" (or_else (value_at "expected" document) (obj end))
    ok (document_result mode (schema_validate iter_errors document) violations expected)

  -- `validate_document`
  unfoldable pub validate_document : Fields → String → Py ValidationResult
  validate_document document mode = do
    ensure (str_in mode validation_modes) (value_error ("Unsupported validation mode: " <> mode))
    if is_verified_payload document
        then ok (payload_result mode (schema_validate iter_errors document))
        else validate_rules document mode
