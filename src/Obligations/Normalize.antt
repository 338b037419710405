-- ===== src/Obligations/Normalize.antt =====
-- validator/runtime_obligations.py, `normalize_runtime_obligation`.
use Prim.Native.String.{slice}
use ev4_constructability_eng.Base.{
  String, ◌<>◌, Bool, true, false, not, ◌==◌, List, [], ◌∷◌, is_empty, keep, map, if◌then◌else◌,
}
use ev4_constructability_eng.Base.Sorting.{distinct, sort_texts}
use ev4_constructability_eng.Base.Python.{
  Py, ok, raise, ◌>>=◌, ◌>>◌, ensure, incomplete, invalid_status, not_deterministic, not_mapping,
  runtime_obligation_error, wrong_boundary, wrong_claim,
}
use ev4_constructability_eng.Json.{
  Json, null, bool, str, arr, obj, nil, Fields, end, field, in_set, is_str, or_else, py_list,
  value_at,
}
use ev4_constructability_eng.Json.Build.{dict_of, list_of, texts_of}
use ev4_constructability_eng.Json.Host.{Host}
use ev4_constructability_eng.Registry.Claims.{is_post_builder_claim}
use ev4_constructability_eng.Actions.Canonical.{canonical_fields}

abbrev pub required_fields : List String
required_fields =
    "obligation_id" ∷ "claim_id" ∷ "subject_ref" ∷ "consumer_stage" ∷ "required_runner"
    ∷ "target_identity" ∷ "required_inputs" ∷ "expected_assertions" ∷ "completion_criteria"
    ∷ "blocking_boundary" ∷ "status" ∷ []

-- `v in (None, "", [], {})`
abbrev pub is_blank : Json → Bool
is_blank null = true
is_blank (str s) = s == ""
is_blank (arr nil) = true
is_blank (obj end) = true
is_blank _ = false

abbrev pub missing_fields : Fields → List String
missing_fields result = keep (λ key. is_blank (value_at key result)) required_fields

-- `result[key] = value`
unfoldable pub set_field : String → Json → Fields → Fields
set_field k v end = field k v end
set_field k v (field j w fs) = if j == k then field j v fs else field j w (set_field k v fs)

abbrev pub statuses : List String
statuses = "required" ∷ "executed_pass" ∷ "executed_fail" ∷ "not_applicable" ∷ []

abbrev pub closing_statuses : List String
closing_statuses = "executed_pass" ∷ "not_applicable" ∷ []

module _ (host : Host) where
  open host use {py_str, sha256_json}

  -- The texts of the entries that are not printed as nothing.
  abbrev printed : List Json → List String
  printed vs = keep (λ s. not (s == "")) (map py_str vs)

  -- The fields that the identity of an obligation is computed from.
  unfoldable pub identity_seed : Fields → Json
  identity_seed result = dict_of (
      ("claim_id", value_at "claim_id" result)
      ∷ ("subject_ref", value_at "subject_ref" result)
      ∷ ("required_runner", value_at "required_runner" result)
      ∷ ("target_identity", value_at "target_identity" result)
      ∷ ("required_inputs", value_at "required_inputs" result)
      ∷ ("expected_assertions", value_at "expected_assertions" result)
      ∷ [])

  unfoldable pub obligation_identity : Fields → String
  obligation_identity result =
      "ce-runtime-obligation-" <> slice (sha256_json (identity_seed result)) 0 24

  -- The four fields that the function sets.
  unfoldable pub with_derived : Fields → Bool → List Json → List Json → Fields
  unfolding set_field
  with_derived value closed inputs assertions =
      set_field "expected_assertions" (texts_of (printed assertions)) (
        set_field "required_inputs" (texts_of (sort_texts (distinct (printed inputs)))) (
          set_field "blocks_final_completion" (bool (not closed))
            (set_field "blocks_builder_handoff" (bool false) value)))

  -- The rest of the function, once the value is known to be an object.
  unfoldable pub normalize_object : Fields → Py Fields
  normalize_object value = do
    ensure (is_empty (missing_fields value))
        (runtime_obligation_error (incomplete (missing_fields value)))
    let claim_id = py_str (value_at "claim_id" value)
    ensure (is_post_builder_claim claim_id) (runtime_obligation_error (wrong_claim claim_id))
    known ← in_set statuses (value_at "status" value)
    ensure known (runtime_obligation_error invalid_status)
    ensure (is_str "final_project_gate" (value_at "blocking_boundary" value))
        (runtime_obligation_error wrong_boundary)
    closed ← in_set closing_statuses (value_at "status" value)
    inputs ← py_list (or_else (value_at "required_inputs" value) (list_of []))
    assertions ← py_list (or_else (value_at "expected_assertions" value) (list_of []))
    let result = with_derived value closed inputs assertions
    ensure (is_str (obligation_identity result) (value_at "obligation_id" result))
        (runtime_obligation_error not_deterministic)
    ok (canonical_fields result)

  -- `normalize_runtime_obligation`
  abbrev pub normalize_runtime_obligation : Json → Py Fields
  normalize_runtime_obligation (obj value) = normalize_object value
  normalize_runtime_obligation _ = raise (runtime_obligation_error not_mapping)
