-- ===== src/Evaluation/Runtime.antt =====
-- validator/claim_evaluators.py: `_declaration_for` and `_runtime_evaluation`.
use ev4_constructability_eng.Base.{
  String, Bool, ◌&&◌, ◌==◌, Option, none, some, List, [], ◌∷◌, nat_eq, if◌then◌else◌,
}
use ev4_constructability_eng.Base.Int.{pos}
use ev4_constructability_eng.Base.Python.{Py, ◌>>=◌}
use ev4_constructability_eng.Json.{Json, null, int, str, obj, Fields, or_else, value_at}
use ev4_constructability_eng.Json.Build.{fields_of, texts_of}
use ev4_constructability_eng.Json.Host.{Host}
use ev4_constructability_eng.Execution.Execute.{
  RepositoryExecutionResult, RuntimeExecutionBatch, select_execution_result,
}
use ev4_constructability_eng.Execution.Requests.{Declaration}
use ev4_constructability_eng.Evaluation.Attributed.{with_evidence_id}
use ev4_constructability_eng.Evaluation.Obligation.{runtime_obligation}
use ev4_constructability_eng.Evaluation.Support.{
  Evaluation, Findings, base_evaluation, draft_node, semantics,
}

-- A declaration as the dict that it is in the code.
abbrev pub declaration_fields : Declaration → Fields
declaration_fields d = fields_of (
    ("declaration_kind", str "RUNTIME_TEST_SPECIFICATION")
    ∷ ("claim_id", str d.claim_id)
    ∷ ("subject_ref", str d.subject_ref)
    ∷ ("required_runner", str d.required_runner)
    ∷ ("evaluator_id", str d.evaluator_id)
    ∷ ("target_identity", str d.target_identity)
    ∷ ("input_ref", elim d.input_ref [ none ↦ null | some i ↦ str i ])
    ∷ ("required_inputs", texts_of d.required_inputs)
    ∷ ("expected_assertions", texts_of d.expected_assertions)
    ∷ [])

abbrev pub declaration_json : Option Declaration → Json
declaration_json none = null
declaration_json (some d) = obj (declaration_fields d)

-- The first declaration of a list for a claim of a subject.
abbrev pub first_declaration : String → String → List Declaration → Option Declaration
first_declaration claim_id subject_ref [] = none
first_declaration claim_id subject_ref (d ∷ ds) =
    let later = first_declaration claim_id subject_ref ds in
    if d.claim_id == claim_id && d.subject_ref == subject_ref then some d else later

-- `_declaration_for`
unfoldable pub declaration_for : Option RuntimeExecutionBatch → String → String → Option Declaration
declaration_for none claim_id subject_ref = none
declaration_for (some batch) claim_id subject_ref =
    first_declaration claim_id subject_ref batch.declarations

-- A declaration's target, where it is not blank, comes before the one of the draft.
unfoldable pub expected_target : String → Option Declaration → String
expected_target drafted none = drafted
expected_target drafted (some d) = if d.target_identity == "" then drafted else d.target_identity

-- `execution is not None and …`
abbrev pub succeeded : String → RepositoryExecutionResult → Bool
succeeded target r =
    r.target_identity == target && (r.execution_status == "success" && nat_eq r.exit_code 0)

module _ (host : Host) where
  open host use {py_str, sha256_json}

  abbrev pub execution_record : RepositoryExecutionResult → String → String → Fields
  execution_record r claim_id subject_ref = fields_of (
      ("mode", str "VERIFIED_TOOL_EXECUTION")
      ∷ ("claim_id", str claim_id)
      ∷ ("subject_ref", str subject_ref)
      ∷ ("transaction_id", str r.transaction_id)
      ∷ ("evaluator_id", str r.evaluator_id)
      ∷ ("method_or_command", str r.method_or_command)
      ∷ ("target_identity", str r.target_identity)
      ∷ ("execution_status", str r.execution_status)
      ∷ ("exit_code", int (pos r.exit_code))
      ∷ ("captured_result", obj r.captured_result)
      ∷ ("result_digest", str r.result_digest)
      ∷ ("limitations", texts_of r.limitations)
      ∷ ("verification", str "repository_owned_current_transaction_execution")
      ∷ [])

  abbrev pub executed_findings : RepositoryExecutionResult → Fields → Findings
  executed_findings r rec = record {
    status = "satisfied";
    facts = r.captured_result;
    evidence_refs = sha256_json (obj rec) ∷ [];
    limitations = r.limitations;
    diagnostics = [];
    downstream_obligation = none;
    evidence_records = with_evidence_id host rec ∷ [];
  }

  abbrev pub obligation_record : String → String → Fields → Option Declaration → Fields
  obligation_record claim_id subject_ref obligation declaration = fields_of (
      ("mode", str "DOWNSTREAM_TEST_OBLIGATION")
      ∷ ("claim_id", str claim_id)
      ∷ ("subject_ref", str subject_ref)
      ∷ ("obligation_id", value_at "obligation_id" obligation)
      ∷ ("obligation", obj obligation)
      ∷ ("declaration", declaration_json declaration)
      ∷ ("verification", str "obligation_created_not_executed")
      ∷ [])

  abbrev pub unavailable : String
  unavailable =
      "The implemented target or a successful repository-owned execution is unavailable; no runtime pass is claimed."

  -- What is left open, by whether there was an execution.
  abbrev pub open_findings : Option RepositoryExecutionResult → Fields → Fields → Findings
  open_findings execution obligation rec = record {
    status = "downstream_validation_required";
    facts = fields_of [];
    evidence_refs = [];
    limitations = unavailable ∷ elim execution [ none ↦ [] | some r ↦ r.limitations ];
    diagnostics =
        elim execution [
          | none ↦ "CE_CLAIM_POST_BUILDER_RUNTIME_OBLIGATION_REQUIRED"
          | some r ↦ "CE_CLAIM_RUNTIME_EXECUTION_FAILED"
        ]
        ∷ [];
    downstream_obligation = some obligation;
    evidence_records = with_evidence_id host rec ∷ [];
  }

  unfoldable pub open_evaluation :
      (claim_id subject_ref target : String)
      → Option RepositoryExecutionResult
      → Option Declaration
      → Py Evaluation
  open_evaluation claim_id subject_ref target execution declaration = do
    obligation ← runtime_obligation host claim_id subject_ref target declaration
    base_evaluation claim_id subject_ref (
        open_findings execution obligation
          (obligation_record claim_id subject_ref obligation declaration))

  -- The rest of `_runtime_evaluation`, once the execution is selected.
  unfoldable pub evaluate_execution :
      (claim_id subject_ref target : String)
      → Option RepositoryExecutionResult
      → Option Declaration
      → Py Evaluation
  evaluate_execution claim_id subject_ref target none declaration =
      open_evaluation claim_id subject_ref target none declaration
  evaluate_execution claim_id subject_ref target (some r) declaration =
      if succeeded target r
      then base_evaluation claim_id subject_ref
          (executed_findings r (execution_record r claim_id subject_ref))
      else open_evaluation claim_id subject_ref target (some r) declaration

  -- `str(semantics.get("target_identity") or subject_ref)`
  abbrev pub drafted_target : Fields → String → String
  drafted_target facts subject_ref =
      py_str (or_else (value_at "target_identity" facts) (str subject_ref))

  -- `_runtime_evaluation`
  unfoldable pub runtime_evaluation :
      (claim_id subject_ref transaction_id : String)
      → Fields
      → Option RuntimeExecutionBatch
      → Py Evaluation
  runtime_evaluation claim_id subject_ref transaction_id review_draft batch = do
    node ← draft_node review_draft subject_ref
    let declaration = declaration_for batch claim_id subject_ref
    let target = expected_target (drafted_target (semantics node claim_id) subject_ref) declaration
    evaluate_execution claim_id subject_ref target
        (select_execution_result batch transaction_id claim_id subject_ref) declaration
