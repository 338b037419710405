-- ===== src/Tests/Execution.antt =====
-- A runtime request executed on a concrete target.
use mathlib.Core.List.{Memᴰ, Perm}
use ev4_constructability_eng.Base.{
  ◌≡◌, ◌↔◌, refl, true, none, some, List, [], ◌∷◌, length, ◌==◌, if◌then◌else◌,
}
use ev4_constructability_eng.Base.Sorting.{insert_by, sort_by, sort_texts}
use ev4_constructability_eng.Base.Python.{
  ok, raise, not_strict_json, runtime_execution_boundary_error,
}
use ev4_constructability_eng.Json.{Json, Fields, bool, obj, py_eq, str}
use ev4_constructability_eng.Json.Build.{dict_of, fields_of, list_of, texts_of}
use ev4_constructability_eng.Execution.Requests.{
  Declaration, all_texts, leaked_fields, normalize_request, string_array, unknown_fields_of,
}
use ev4_constructability_eng.Execution.Runners.{
  accessibility_item, evaluate_items, interaction_item, qa_item, responsive_item, run,
}
use ev4_constructability_eng.Execution.Execute.{
  Repository, RepositoryExecutionResult, RuntimeExecutionBatch, build_result, execute_file,
  execute_if_available, execute_loop, execute_runtime_requests, matches_request, mismatched,
  select_execution_result, validate_binding,
}
use ev4_constructability_eng.Execution.ExecuteLaws.{IsBatch, execute_runtime_requests-IsBatch}
use ev4_constructability_eng.Execution.SelectLaws.{select_execution_result_iff}
use ev4_constructability_eng.Tests.Data.{digest, test_host}

abbrev qa_target : Fields
qa_target = fields_of (
    ("schema_id", str "ev4-ce-qa-evaluation-target@1.0.0")
    ∷ ("claim_id", str "QA")
    ∷ ("subject_ref", str "n1")
    ∷ ("target_identity", str "page")
    ∷ (
      "assertions",
      list_of (
          dict_of
            (("assertion_id", str "a1") ∷ ("expected", bool true) ∷ ("observed", bool true) ∷ [])
          ∷ []),
    )
    ∷ [])

-- A repository with one file, which holds the target.
abbrev pub one_file : Repository
one_file = record {
  resolve_input = λ i. if i == "qa.json" then some "qa.json" else none;
  read_json = λ p.
      if p == "qa.json"
      then ok (obj qa_target)
      else raise (runtime_execution_boundary_error (not_strict_json p));
  bytes_sha256 = λ p. digest;
}

abbrev pub qa_request : Json
qa_request = dict_of (
    ("claim_id", str "QA")
    ∷ ("subject_ref", str "n1")
    ∷ ("evaluator_id", str "ce-qa-evaluator")
    ∷ ("target_identity", str "page")
    ∷ ("input_ref", str "qa.json")
    ∷ ("required_inputs", texts_of ("page" ∷ []))
    ∷ [])

abbrev pub qa_result : RepositoryExecutionResult
qa_result = record {
  transaction_id = "t1";
  claim_id = "QA";
  subject_ref = "n1";
  evaluator_id = "ce-qa-evaluator";
  method_or_command = "validator.runtime_execution:_run_qa";
  target_identity = "page";
  execution_status = "success";
  exit_code = 0;
  captured_result = fields_of (
      (
        "assertions",
        list_of (
            dict_of (
              ("assertion_id", str "a1")
              ∷ ("expected", bool true)
              ∷ ("observed", bool true)
              ∷ ("passed", bool true)
              ∷ [])
            ∷ []),
      )
      ∷ ("passed", bool true)
      ∷ ("input_ref", str "qa.json")
      ∷ ("input_bytes_sha256", str digest)
      ∷ []);
  result_digest = test_host.sha256_json (obj qa_target);
  limitations = [];
}

abbrev pub qa_declaration : Declaration
qa_declaration = record {
  claim_id = "QA";
  subject_ref = "n1";
  required_runner = "ce-qa-evaluator";
  evaluator_id = "ce-qa-evaluator";
  target_identity = "page";
  input_ref = some "qa.json";
  required_inputs = "page" ∷ [];
  expected_assertions = [];
}

abbrev pub qa_batch : RuntimeExecutionBatch
qa_batch = record {
  transaction_id = "t1";
  results = qa_result ∷ [];
  declarations = qa_declaration ∷ [];
}

pub qa_executed : execute_runtime_requests test_host one_file "t1" (qa_request ∷ []) ≡ ok qa_batch
unfolding execute_runtime_requests execute_loop execute_if_available execute_file build_result
    validate_binding mismatched run evaluate_items qa_item interaction_item responsive_item
    accessibility_item py_eq normalize_request string_array all_texts leaked_fields
    unknown_fields_of sort_texts sort_by insert_by
qa_executed = refl

execute_runtime_requests-IsBatch_example :
    (found : List Declaration × List RepositoryExecutionResult) × Perm qa_batch.declarations found.0
    × Perm qa_batch.results found.1
    × (length found.0 ≡ 1)
    × IsBatch test_host one_file "t1" [] found.0 found.1
execute_runtime_requests-IsBatch_example =
    execute_runtime_requests-IsBatch test_host one_file "t1" (qa_request ∷ []) qa_batch qa_executed

select_execution_result_iff_example :
    (select_execution_result (some qa_batch) "t1" "QA" "n1" ≡ some qa_result)
    ↔ (Memᴰ qa_result qa_batch.results × (matches_request "t1" "QA" "n1" qa_result ≡ true))
select_execution_result_iff_example =
    select_execution_result_iff test_host one_file "t1" (qa_request ∷ []) qa_batch "QA" "n1"
      qa_result qa_executed
