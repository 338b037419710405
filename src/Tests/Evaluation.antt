-- ===== src/Tests/Evaluation.antt =====
-- A runtime claim evaluated over a concrete batch.
use mathlib.Core.List.{Memᴰ}
use ev4_constructability_eng.Base.{◌≡◌, ◌↔◌, refl, some, [], ◌∷◌, true, none, false}
use ev4_constructability_eng.Base.Sorting.{insert_by, sort_by, sort_texts}
use ev4_constructability_eng.Base.Python.{ok}
use ev4_constructability_eng.Json.{Json, Fields, bool, obj, py_eq, str}
use ev4_constructability_eng.Json.Build.{dict_of, fields_of, list_of, texts_of}
use ev4_constructability_eng.Effects.Inputs.{inner}
use ev4_constructability_eng.Effects.Permits.{IsApproval}
use ev4_constructability_eng.Evaluation.Decision.{
  candidate_matches, candidate_of, decided, decision_key, decision_of, decision_record, either_of,
  evaluate_architect_decision,
}
use ev4_constructability_eng.Evaluation.DecisionLaws.{
  FitsCandidate, FitsSubject, evaluate_architect_decision_iff,
}
use ev4_constructability_eng.Registry.Claims.{
  ClaimPolicy, policy, policy_for, post_builder_runtime, pre_builder_static,
}
use ev4_constructability_eng.Execution.Execute.{select_execution_result}
use ev4_constructability_eng.Evaluation.Runtime.{
  declaration_for, evaluate_execution, execution_record, executed_findings, expected_target,
  runtime_evaluation,
}
use ev4_constructability_eng.Evaluation.Settled.{IsSettled, runtime_evaluation-IsSettled, target_of}
use ev4_constructability_eng.Evaluation.Support.{Evaluation, base_evaluation, draft_node, semantics}
use ev4_constructability_eng.Evaluation.Total.{Returns, runtime_evaluation-Returns}
use ev4_constructability_eng.Tests.Data.{test_host}
use ev4_constructability_eng.Tests.Execution.{
  one_file, qa_batch, qa_executed, qa_request, qa_result,
}

abbrev qa_draft : Fields
qa_draft = fields_of (("reviewed_nodes", list_of (dict_of (("node_id", str "n1") ∷ []) ∷ [])) ∷ [])

abbrev qa_policy : ClaimPolicy
qa_policy =
    policy "Builder/QA runtime" post_builder_runtime "runtime_obligation"
      ("DOWNSTREAM_TEST_OBLIGATION" ∷ "VERIFIED_TOOL_EXECUTION" ∷ []) ([])
      "R17_QA_REQUIRES_EXECUTION_EVIDENCE" "emit_runtime_obligation" "require_complete_obligation"
      "require_executed_pass" "downstream_validation_required"

abbrev qa_evaluation : Evaluation
qa_evaluation =
    let findings =
      executed_findings test_host qa_result (execution_record test_host qa_result "QA" "n1") in
    record {
      claim_id = "QA";
      subject_ref = "n1";
      lifecycle_phase = post_builder_runtime;
      status = "satisfied";
      blocking = false;
      authority_owner = "Builder/QA runtime";
      applicable_rule = "R17_QA_REQUIRES_EXECUTION_EVIDENCE";
      facts = findings.facts;
      evidence_refs = findings.evidence_refs;
      limitations = [];
      diagnostics = [];
      downstream_obligation = none;
      evidence_records = findings.evidence_records;
      policy = qa_policy;
    }

qa_draft_read : Returns (draft_node qa_draft "n1")
unfolding draft_node
qa_draft_read = (fields_of (("node_id", str "n1") ∷ []), refl)

qa_evaluated :
    runtime_evaluation test_host "QA" "n1" "t1" qa_draft (some qa_batch) ≡ ok qa_evaluation
unfolding runtime_evaluation evaluate_execution base_evaluation draft_node semantics declaration_for
    expected_target select_execution_result policy_for policy sort_texts sort_by insert_by
qa_evaluated = refl

runtime_evaluation-IsSettled_example :
    (node : Fields) × (draft_node qa_draft "n1" ≡ ok node)
    × IsSettled test_host one_file qa_batch "t1" "QA" "n1"
        (target_of test_host one_file qa_batch "t1" "QA" "n1" node)
        qa_evaluation
runtime_evaluation-IsSettled_example =
    runtime_evaluation-IsSettled test_host one_file "t1" (qa_request ∷ []) qa_batch "QA" "n1"
      qa_draft qa_evaluation qa_executed qa_evaluated

abbrev loop_decision : Fields
loop_decision =
    fields_of (("status", bool true) ∷ ("subject_refs", texts_of ("n0" ∷ "n1" ∷ [])) ∷ [])

abbrev loop_intake : Fields
loop_intake = fields_of (
    ("selected_architecture", dict_of (("selected_candidate_id", str "c1") ∷ []))
    ∷ ("architect_intent_preserved", dict_of (("dynamic_loop_intent", obj loop_decision) ∷ []))
    ∷ [])

abbrev loop_policy : ClaimPolicy
loop_policy =
    policy "Architect" pre_builder_static "canonical_architect_decision"
      ("VERIFIED_ARCHITECT_DECISION" ∷ []) ([]) "R08_DYNAMIC_LOOP_REQUIRES_APPROVAL"
      "evaluate_architect_decision" "require_satisfied" "carry_forward"
      "architect_decision_required"

abbrev loop_evaluation : Evaluation
loop_evaluation =
    let current = bool true in
    let findings =
      decided test_host (str "c1") current
        (decision_record test_host "dynamic_loop_approval" "n1" (str "c1") current loop_intake) in
    record {
      claim_id = "dynamic_loop_approval";
      subject_ref = "n1";
      lifecycle_phase = pre_builder_static;
      status = "satisfied";
      blocking = false;
      authority_owner = "Architect";
      applicable_rule = "R08_DYNAMIC_LOOP_REQUIRES_APPROVAL";
      facts = findings.facts;
      evidence_refs = findings.evidence_refs;
      limitations = [];
      diagnostics = [];
      downstream_obligation = none;
      evidence_records = findings.evidence_records;
      policy = loop_policy;
    }

loop_evaluated :
    evaluate_architect_decision test_host "dynamic_loop_approval" "n1" loop_intake
    ≡ ok loop_evaluation
unfolding evaluate_architect_decision candidate_matches decision_key base_evaluation policy_for
    policy sort_texts sort_by insert_by py_eq
loop_evaluated = refl

evaluate_architect_decision_iff_example :
    (candidate : Json) × (candidate_of loop_intake ≡ ok candidate)
    × ((loop_evaluation.status ≡ "satisfied") ↔ (
        IsApproval (inner "status" (decision_of loop_intake "dynamic_loop_approval"))
        × FitsCandidate candidate (
            either_of "selected_candidate_id" "candidate_id"
              (decision_of loop_intake "dynamic_loop_approval"))
        × FitsSubject "n1" (
            either_of "subject_refs" "node_ids" (decision_of loop_intake "dynamic_loop_approval"))))
evaluate_architect_decision_iff_example =
    evaluate_architect_decision_iff test_host "dynamic_loop_approval" "n1" loop_intake
      loop_evaluation loop_evaluated

runtime_evaluation-Returns_example :
    Returns (runtime_evaluation test_host "accessibility" "n1" "t1" qa_draft (some qa_batch))
runtime_evaluation-Returns_example =
    runtime_evaluation-Returns test_host "accessibility" "n1" "t1" qa_draft (some qa_batch)
      (Memᴰ.tail (Memᴰ.tail (Memᴰ.head refl))) qa_draft_read
