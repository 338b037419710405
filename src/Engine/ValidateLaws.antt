-- ===== src/Engine/ValidateLaws.antt =====
-- What a document that passes the validation guarantees.
use ev4_constructability_eng.Base.{
  ◌≡◌, ap, ◌∙◌, String, ◌<>◌, true, false, [], and_true, arith, is_empty, is_empty-eq, str_in, ◌==◌,
  eq_iff,
}
use ev4_constructability_eng.Base.Python.{ok, >>=-eq-ok, ensure-then, ok-injective, value_error}
use ev4_constructability_eng.Json.{Json, obj, end, Fields, get, is_str, or_else, value_at}
use ev4_constructability_eng.Rules.Document.{status, validation_modes}
use ev4_constructability_eng.Rules.Parts.{extend-eq-nil}
use ev4_constructability_eng.Rules.Gate.{IsBuilderReady, evaluate_document_sound}
use ev4_constructability_eng.Engine.Preflight.{
  mode_preflight_violations, reference_paradigm_preflight_violations, visual_parity_requested,
}
use ev4_constructability_eng.Engine.PreflightLaws.{
  ReferenceIsLocked, reference_paradigm_preflight_violations_iff,
}
use ev4_constructability_eng.Engine.Schemas.{SchemaValidator, is_verified_payload, schema_validate}
use ev4_constructability_eng.Engine.Validate.{
  ValidationResult, document_result, rule_violations, validate_document, validate_rules,
}

-- A report is not executable.
abbrev pub ReportIsOpen : Fields → Type 0
ReportIsOpen document =
    (s : Json)
    → get "constructability_status"
        (or_else (value_at "constructability_review" document) (obj document))
      ≡ ok s
    → is_str "executable_ready" s ≡ false

pub record HasPassed (iter_errors : SchemaValidator) (document : Fields) (mode : String)
    : Type 0 where
  pub schema_clean : schema_validate iter_errors document ≡ []
  pub mode_known : str_in mode validation_modes ≡ true
  pub report_open : mode ≡ "report" → ReportIsOpen document
  pub reference_locked : visual_parity_requested document ≡ true → ReferenceIsLocked document
  pub builder_ready :
      (s : Json)
      → status (obj document) ≡ ok s
      → is_str "executable_ready" s ≡ true
      → IsBuilderReady (obj document)

mode_sound :
    (document : Fields) (mode : String)
    → mode_preflight_violations document mode ≡ ok []
    → mode ≡ "report"
    → ReportIsOpen document
unfolding mode_preflight_violations
mode_sound document mode h is_report s reads =
    let report : (mode == "report") ≡ true = (eq_iff mode "report").1 is_report in
    let silent = ok-injective (rw (report, reads) at h) in ground arith

module _ (iter_errors : SchemaValidator) (document : Fields) (mode : String) where
  -- The rules of a document that passes report nothing.
  rules_silent :
      (result : ValidationResult)
      → validate_rules iter_errors document mode ≡ ok result
      → result.passed ≡ true
      → (schema_validate iter_errors document ≡ []) × (rule_violations document mode ≡ ok [])
  unfolding validate_rules
  rules_silent result h passed =
      let (violations, found, h1) = >>=-eq-ok (rule_violations document mode) _ h in
      let (expected, _, h2) =
        >>=-eq-ok (get "validation_pass" (or_else (value_at "expected" document) (obj end))) _ h1 in
      let errors = schema_validate iter_errors document in
      let same : document_result mode errors violations expected ≡ result = ok-injective h2 in
      let (clean, silent) =
        and_true (is_empty errors) (is_empty violations) (ap (λ r. r.passed) same ∙ passed) in
      (is_empty-eq errors clean, found ∙ ap ok (is_empty-eq violations silent))

  -- When a document that is no verified payload passes, its mode is known and the schema validator
  -- finds no error; in report mode its review is not executable_ready; if it requests visual parity
  -- the reference paradigm is locked; and if its status is executable_ready it is ready for the
  -- Builder.
  pub validate_document-HasPassed :
      (result : ValidationResult)
      → is_verified_payload document ≡ false
      → validate_document iter_errors document mode ≡ ok result
      → result.passed ≡ true
      → HasPassed iter_errors document mode
  unfolding validate_document rule_violations
  validate_document-HasPassed result ordinary h passed =
      let (known, h1) =
        ensure-then (str_in mode validation_modes)
          (value_error ("Unsupported validation mode: " <> mode)) _ h in
      let (clean, silent) = rules_silent result (rw ordinary at h1) passed in
      let (mode_silent, rest) = extend-eq-nil (mode_preflight_violations document mode) _ silent in
      let (reference_silent, evaluated) =
        extend-eq-nil (ok (reference_paradigm_preflight_violations document)) _ rest in
      record {
        schema_clean = clean;
        mode_known = known;
        report_open = mode_sound document mode mode_silent;
        reference_locked =
            (reference_paradigm_preflight_violations_iff document).0
              (ok-injective reference_silent);
        builder_ready = λ s reads executable.
            evaluate_document_sound (obj document) mode s reads executable evaluated;
      }
