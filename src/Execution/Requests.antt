-- ===== src/Execution/Requests.antt =====
-- validator/runtime_execution.py: the tables of the closed vocabulary and `_normalize_request`.
use ev4_constructability_eng.Base.{
  String, Bool, not, ◌&&◌, ◌==◌, Option, none, some, List, [], ◌∷◌, is_empty, keep, map, str_in,
  if◌then◌else◌,
}
use ev4_constructability_eng.Base.Sorting.{sort_texts}
use ev4_constructability_eng.Base.Python.{
  BoundaryError, Py, ok, raise, ◌>>=◌, ◌>>◌, ensure, completed_result_fields, foreign_evaluator,
  input_ref_invalid, not_string_array, request_identity_incomplete,
  runtime_execution_boundary_error, unknown_request_fields, unsupported_claim,
}
use ev4_constructability_eng.Json.{
  Json, null, str, arr, nil, Fields, elems, from_default, is_text, lookup, pairs, value_at,
}
use ev4_constructability_eng.Registry.Contract.{find}
use ev4_constructability_eng.Actions.Normalize.{text_value}

-- `_EVALUATOR_BY_CLAIM`
abbrev pub evaluator_by_claim : List (String × String)
evaluator_by_claim =
    ("responsive_behavior", "ce-responsive-evaluator")
    ∷ ("interaction_validation", "ce-interaction-evaluator")
    ∷ ("accessibility", "ce-accessibility-evaluator")
    ∷ ("QA", "ce-qa-evaluator")
    ∷ []

-- `_SCHEMA_BY_CLAIM`
abbrev pub schema_by_claim : List (String × String)
schema_by_claim =
    ("responsive_behavior", "ev4-ce-responsive-evaluation-target@1.0.0")
    ∷ ("interaction_validation", "ev4-ce-interaction-evaluation-target@1.0.0")
    ∷ ("accessibility", "ev4-ce-accessibility-evaluation-target@1.0.0")
    ∷ ("QA", "ev4-ce-qa-evaluation-target@1.0.0")
    ∷ []

-- `_PROHIBITED_COMPLETED_RESULT_FIELDS`
abbrev pub prohibited_completed_result_fields : List String
prohibited_completed_result_fields =
    "observed" ∷ "observed_layout" ∷ "accessible_name" ∷ "passed" ∷ "captured_result"
    ∷ "execution_status" ∷ "exit_code" ∷ "method_or_command" ∷ "result_digest" ∷ "limitations"
    ∷ "transaction_id" ∷ []

-- `_ALLOWED_REQUEST_FIELDS`
abbrev pub allowed_request_fields : List String
allowed_request_fields =
    "claim_id" ∷ "subject_ref" ∷ "evaluator_id" ∷ "target_identity" ∷ "input_ref"
    ∷ "required_inputs" ∷ "expected_assertions" ∷ []

-- A declaration; its kind is the record type.
pub record Declaration : Type 0 where
  pub claim_id : String
  pub subject_ref : String
  pub required_runner : String
  pub evaluator_id : String
  pub target_identity : String
  pub input_ref : Option String
  pub required_inputs : List String
  pub expected_assertions : List String

abbrev pub cross {ℓ} : {A : Type ℓ} → BoundaryError → Py A
cross e = raise (runtime_execution_boundary_error e)

abbrev keys_of : Fields → List String
keys_of request = map (λ p. p.0) (pairs request)

unfoldable pub leaked_fields : Fields → List String
leaked_fields request =
    sort_texts (keep (λ k. str_in k prohibited_completed_result_fields) (keys_of request))

unfoldable pub unknown_fields_of : Fields → List String
unknown_fields_of request =
    sort_texts (keep (λ k. not (str_in k allowed_request_fields)) (keys_of request))

abbrev pub request_complete : Fields → Bool
request_complete request =
    is_text (value_at "claim_id" request)
    && (is_text (value_at "subject_ref" request)
        && (is_text (value_at "evaluator_id" request)
            && is_text (value_at "target_identity" request)))

abbrev pub owned_evaluator : String → Option String → Py String
owned_evaluator claim_id none = cross (unsupported_claim claim_id)
owned_evaluator claim_id (some e) = ok e

-- `input_ref`, which is null or a nonempty text.
abbrev pub input_ref_of : Json → Py (Option String)
input_ref_of null = ok none
input_ref_of (str s) = if s == "" then cross input_ref_invalid else ok (some s)
input_ref_of _ = cross input_ref_invalid

-- A list of texts.
abbrev pub add_text : Json → Option (List String) → Option (List String)
add_text (str s) (some ts) = some (s ∷ ts)
add_text _ _ = none

unfoldable pub all_texts : List Json → Option (List String)
all_texts [] = some []
all_texts (v ∷ vs) = add_text v (all_texts vs)

abbrev pub texts_or_refuse : String → Option (List String) → Py (List String)
texts_or_refuse key none = cross (not_string_array key)
texts_or_refuse key (some ts) = ok ts

unfoldable pub string_array : String → Json → Py (List String)
string_array key (arr vs) = texts_or_refuse key (all_texts (elems vs))
string_array key _ = cross (not_string_array key)

-- `_normalize_request`
unfoldable pub normalize_request : Fields → Py Declaration
normalize_request request = do
  ensure (is_empty (leaked_fields request))
      (runtime_execution_boundary_error (completed_result_fields (leaked_fields request)))
  ensure (is_empty (unknown_fields_of request))
      (runtime_execution_boundary_error (unknown_request_fields (unknown_fields_of request)))
  ensure (request_complete request) (runtime_execution_boundary_error request_identity_incomplete)
  let claim_id = text_value (value_at "claim_id" request)
  let evaluator_id = text_value (value_at "evaluator_id" request)
  owned ← owned_evaluator claim_id (find claim_id evaluator_by_claim)
  ensure (evaluator_id == owned)
      (runtime_execution_boundary_error (foreign_evaluator evaluator_id claim_id))
  input_ref ← input_ref_of (value_at "input_ref" request)
  inputs ←
      string_array "required_inputs" (from_default (lookup "required_inputs" request) (arr nil))
  assertions ←
      string_array "expected_assertions"
        (from_default (lookup "expected_assertions" request) (arr nil))
  ok (record {
    claim_id = claim_id;
    subject_ref = text_value (value_at "subject_ref" request);
    required_runner = evaluator_id;
    evaluator_id = evaluator_id;
    target_identity = text_value (value_at "target_identity" request);
    input_ref = input_ref;
    required_inputs = inputs;
    expected_assertions = assertions;
  })
