-- ===== src/Execution/Execute.antt =====
-- validator/runtime_execution.py: `execution_transaction_id`, `_validate_binding`,
-- `_execute_if_available`, `execute_runtime_requests` and `select_execution_result`.
use Prim.Native.String.{slice}
use ev4_constructability_eng.Base.{
  ℕ, String, ◌<>◌, Bool, not, ◌&&◌, ◌==◌, Option, none, some, List, [], ◌∷◌, ◌++◌, is_empty, keep,
  map, if◌then◌else◌,
}
use ev4_constructability_eng.Base.Text.{str_le}
use ev4_constructability_eng.Base.Sorting.{sort_by}
use ev4_constructability_eng.Base.Python.{
  Py, ok, raise, ◌>>=◌, ◌>>◌, ensure, duplicate_request, key_error, request_not_object,
  runtime_execution_boundary_error, target_mismatch, target_not_object,
}
use ev4_constructability_eng.Json.{Json, str, obj, Fields, is_str, value_at}
use ev4_constructability_eng.Json.Build.{dict_of, fields_of, list_of}
use ev4_constructability_eng.Json.Host.{Host}
use ev4_constructability_eng.Registry.Contract.{find}
use ev4_constructability_eng.Obligations.Derive.{Key, key_in, key_le}
use ev4_constructability_eng.Execution.Requests.{
  Declaration, cross, normalize_request, schema_by_claim,
}
use ev4_constructability_eng.Execution.Runners.{RunResult, Runner, run, runner_by_claim}

-- The files of the repository: the file that an input names inside the repository, if there is
-- one; its content, read as strict JSON or refused; and the SHA-256 of its bytes.
pub record Repository : Type 0 where
  pub resolve_input : String → Option String
  pub read_json : String → Py Json
  pub bytes_sha256 : String → String

pub record RepositoryExecutionResult : Type 0 where
  pub transaction_id : String
  pub claim_id : String
  pub subject_ref : String
  pub evaluator_id : String
  pub method_or_command : String
  pub target_identity : String
  pub execution_status : String
  pub exit_code : ℕ
  pub captured_result : Fields
  pub result_digest : String
  pub limitations : List String

pub record RuntimeExecutionBatch : Type 0 where
  pub transaction_id : String
  pub results : List RepositoryExecutionResult
  pub declarations : List Declaration

-- The keys of a target that do not bind it to a declaration.
unfoldable pub mismatched : Fields → List (String × String) → List String
mismatched target [] = []
mismatched target ((key, value) ∷ expected) =
    let rest = mismatched target expected in
    if is_str value (value_at key target) then rest else key ∷ rest

abbrev pub expected_binding : String → Declaration → List (String × String)
expected_binding schema_id declaration =
    ("schema_id", schema_id)
    ∷ ("claim_id", declaration.claim_id)
    ∷ ("subject_ref", declaration.subject_ref)
    ∷ ("target_identity", declaration.target_identity)
    ∷ []

-- A lookup of a key that is missing raises.
abbrev pub found_in {ℓ} : {A : Type ℓ} → Option A → Py A
found_in none = raise key_error
found_in (some a) = ok a

-- `_validate_binding`
unfoldable pub validate_binding : Fields → Declaration → Py (Unit {0})
validate_binding target declaration = do
  schema_id ← found_in (find declaration.claim_id schema_by_claim)
  ensure (is_empty (mismatched target (expected_binding schema_id declaration))) (
      runtime_execution_boundary_error
        (target_mismatch (mismatched target (expected_binding schema_id declaration))))

abbrev pub target_fields : Json → Py Fields
target_fields (obj fs) = ok fs
target_fields _ = cross target_not_object

abbrev pub status_text : Bool → String
status_text passed = if passed then "success" else "failed"

abbrev pub exit_number : Bool → ℕ
exit_number passed = if passed then 0 else 1

module _ (host : Host) (repository : Repository) where
  open host use {py_str, sha256_json}

  abbrev pub captured_of : RunResult → String → String → Fields
  captured_of outcome input_ref path = fields_of (
      outcome.captured
      ++ (("input_ref", str input_ref)
          ∷ ("input_bytes_sha256", str (repository.bytes_sha256 path))
          ∷ []))

  -- The result of a run.
  unfoldable pub build_result :
      String → Declaration → Runner → RunResult → String → String → RepositoryExecutionResult
  build_result transaction_id declaration runner outcome input_ref path = record {
    transaction_id = transaction_id;
    claim_id = declaration.claim_id;
    subject_ref = declaration.subject_ref;
    evaluator_id = declaration.evaluator_id;
    method_or_command = "validator.runtime_execution:" <> runner.runner_name;
    target_identity = declaration.target_identity;
    execution_status = status_text outcome.passed;
    exit_code = exit_number outcome.passed;
    captured_result = captured_of outcome input_ref path;
    result_digest = sha256_json (obj (captured_of outcome input_ref path));
    limitations = map py_str outcome.limitations;
  }

  -- The part of `_execute_if_available` for an input that is a file of the repository.
  unfoldable pub execute_file :
      String → Declaration → String → String → Py RepositoryExecutionResult
  execute_file transaction_id declaration input_ref path = do
    value ← repository.read_json path
    target ← target_fields value
    _ ← validate_binding target declaration
    runner ← found_in (find declaration.claim_id runner_by_claim)
    outcome ← run runner target
    ok (build_result transaction_id declaration runner outcome input_ref path)

  abbrev pub execute_at :
      String → Declaration → String → Option String → Py (Option RepositoryExecutionResult)
  execute_at transaction_id declaration input_ref none = ok none
  execute_at transaction_id declaration input_ref (some path) =
      execute_file transaction_id declaration input_ref path >>= λ r. ok (some r)

  abbrev pub execute_input :
      String → Declaration → Option String → Py (Option RepositoryExecutionResult)
  execute_input transaction_id declaration none = ok none
  execute_input transaction_id declaration (some input_ref) =
      execute_at transaction_id declaration input_ref (repository.resolve_input input_ref)

  -- `_execute_if_available`
  unfoldable pub execute_if_available : String → Declaration → Py (Option RepositoryExecutionResult)
  execute_if_available transaction_id declaration =
      execute_input transaction_id declaration declaration.input_ref

  abbrev pub declaration_key : Declaration → Key
  declaration_key d = (d.claim_id, d.subject_ref)

  abbrev pub request_fields : Json → Py Fields
  request_fields (obj fs) = ok fs
  request_fields _ = cross request_not_object

  abbrev pub add_result {ℓ} : {A : Type ℓ} → Option A → List A → List A
  add_result none rs = rs
  add_result (some r) rs = r ∷ rs

  -- The loop over the requests, with the keys seen so far.
  unfoldable pub execute_loop :
      String → List Key → List Json → Py (List Declaration × List RepositoryExecutionResult)
  execute_loop transaction_id seen [] = ok ([], [])
  execute_loop transaction_id seen (raw ∷ rest) = do
    request ← request_fields raw
    declaration ← normalize_request request
    ensure (not (key_in (declaration_key declaration) seen)) (
        runtime_execution_boundary_error
          (duplicate_request declaration.claim_id declaration.subject_ref))
    result ← execute_if_available transaction_id declaration
    more ← execute_loop transaction_id (declaration_key declaration ∷ seen) rest
    ok (declaration ∷ more.0, add_result result more.1)

  abbrev pub declaration_le : Declaration → Declaration → Bool
  declaration_le c d = key_le (c.subject_ref, c.claim_id) (d.subject_ref, d.claim_id)

  abbrev pub result_le : RepositoryExecutionResult → RepositoryExecutionResult → Bool
  result_le q r =
      if q.subject_ref == r.subject_ref && q.claim_id == r.claim_id
      then str_le q.evaluator_id r.evaluator_id
      else key_le (q.subject_ref, q.claim_id) (r.subject_ref, r.claim_id)

  -- `execute_runtime_requests`
  unfoldable pub execute_runtime_requests : String → List Json → Py RuntimeExecutionBatch
  execute_runtime_requests transaction_id requests = do
    executed ← execute_loop transaction_id [] requests
    ok (record {
      transaction_id = transaction_id;
      results = sort_by result_le executed.1;
      declarations = sort_by declaration_le executed.0;
    })

-- `execution_transaction_id`
unfoldable pub execution_transaction_id : Host → Fields → Fields → Fields → List Fields → String
execution_transaction_id host architect_intake source_bundle review_draft requests =
    "ce-execution-"
    <> slice
        (host.sha256_json (
          dict_of (
            ("architect_intake", obj architect_intake)
            ∷ ("source_bundle", obj source_bundle)
            ∷ ("review_draft", obj review_draft)
            ∷ ("runtime_execution_requests", list_of (map obj requests))
            ∷ [])))
        0 32

-- A result of a transaction for a claim of a subject.
abbrev pub matches_request : String → String → String → RepositoryExecutionResult → Bool
matches_request transaction_id claim_id subject_ref r =
    r.transaction_id == transaction_id && (r.claim_id == claim_id && r.subject_ref == subject_ref)

-- The element of a list with one element.
abbrev pub only_one {ℓ} : {A : Type ℓ} → List A → Option A
only_one [] = none
only_one (r ∷ []) = some r
only_one (r ∷ q ∷ rs) = none

-- `select_execution_result`
unfoldable pub select_execution_result :
    Option RuntimeExecutionBatch → String → String → String → Option RepositoryExecutionResult
select_execution_result none transaction_id claim_id subject_ref = none
select_execution_result (some batch) transaction_id claim_id subject_ref =
    if batch.transaction_id == transaction_id
    then only_one (keep (matches_request transaction_id claim_id subject_ref) batch.results)
    else none
