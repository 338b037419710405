-- ===== src/Rules/Evaluate.antt =====
-- validator/rules.py: `evaluate_document`, with the parts of its body that follow the node loop.
use ev4_constructability_eng.Base.{
  ℕ, suc, String, ◌<>◌, Bool, true, false, not, ◌&&◌, ◌||◌, Option, none, some, List, [], ◌∷◌, ◌++◌,
  all, is_empty, if◌then◌else◌,
}
use ev4_constructability_eng.Base.Int.{ℤ, pos, int_eq}
use ev4_constructability_eng.Base.Text.{show}
use ev4_constructability_eng.Base.Python.{Py, ok, ◌>>=◌}
use ev4_constructability_eng.Json.{
  Json, obj, end, Fields, as_dict, get, has_key, is_obj, is_str, or_else, py_list, truthy, value_at,
  dict_or_empty,
}
use ev4_constructability_eng.Json.Build.{list_of}
use ev4_constructability_eng.Rules.Document.{
  ConstructabilityViolation, collect, rule, when, blocking_dependencies, builder_decisions_required,
  builder_package, has_object, nodes, review, review_status, status,
}
use ev4_constructability_eng.Rules.Contracts.{
  architect_contract, first_batch_contract, mode_contract, schema_contract, strategy_map_contract,
}
use ev4_constructability_eng.Rules.Nodes.{flag, nodes_violations}

abbrev pub is_zero_count : Option ℤ → Bool
is_zero_count none = false
is_zero_count (some n) = int_eq n (pos 0)

-- R01 and R02: the dependencies are read only for an executable document.
unfoldable pub readiness_violations : Json → Bool → Py (List ConstructabilityViolation)
readiness_violations doc executable = do
  decisions ← builder_decisions_required doc
  deps ← (if executable then blocking_dependencies doc else ok [])
  ok (
      when (executable && not (is_zero_count decisions)) (
        rule "R01_BUILDER_DECISIONS_ZERO" "blocked"
          "executable_ready requires builder_decisions_required == 0." "document")
      ++ when (not (is_empty deps)) (
          rule "R02_BLOCKING_DEPENDENCIES_EMPTY" "blocked"
            "executable_ready requires blocking_dependencies == []." "document"))

-- R11: one of the two violations, or neither.
unfoldable pub confirmation_violations : Fields → List ConstructabilityViolation
confirmation_violations pkg =
    let confirmation = value_at "confirmation_request" pkg in
    if not (is_obj confirmation) || not (truthy (value_at "first_safe_builder_batch" pkg))
    then rule "R11_EXECUTABLE_REQUIRES_CONFIRMATION_AND_BATCH" "blocked"
        "executable_ready requires confirmation_request and first_safe_builder_batch." "document"
      ∷ []
    else when
        (not (
          all (λ key. has_key key (dict_or_empty confirmation))
            ("confirmation_id" ∷ "confirmed_action_ids" ∷ "expected_user_token" ∷ [])))
        (rule "R11_EXECUTABLE_REQUIRES_STRUCTURED_CONFIRMATION" "blocked"
          "confirmation_request is missing required structured fields." "document")

-- R15, for one of the three fields
abbrev lock_violation : Fields → String → List ConstructabilityViolation
lock_violation source key = when (not (flag key source)) (
    rule "R15_SELECTED_CANDIDATE_AND_CLASSES_LOCKED" "blocked"
      ("executable_ready requires " <> key <> ": true.") "document")

unfoldable pub lock_violations : Fields → List ConstructabilityViolation
lock_violations source =
    lock_violation source "selected_candidate_locked"
    ++ (lock_violation source "selected_candidate_id_unchanged"
        ++ lock_violation source "approved_class_names_unchanged")

unfoldable pub executable_violations : Json → Json → Bool → Py (List ConstructabilityViolation)
executable_violations pkg r false = ok []
executable_violations pkg r true = do
  emitted ← as_dict (or_else pkg (obj end))
  source ← as_dict (or_else pkg r)
  ok (confirmation_violations emitted ++ lock_violations source)

-- R12 and R28: the loop over the three places of a QA status stops at the first violation.
unfoldable pub qa_violations : List Json → Py (List ConstructabilityViolation)
qa_violations [] = ok []
qa_violations (source ∷ rest) = do
  block ← get "qa_status" source
  let qa = dict_or_empty block
  let later = qa_violations rest
  if flag "production_ready" qa && not (flag "full_qa_evidence_present" qa)
      then ok (
          rule "R12_PRODUCTION_READY_REQUIRES_QA_EVIDENCE" "blocked"
            "production_ready true requires separate QA evidence." "document"
          ∷ [])
      else if flag "production_ready" qa && not (has_object (value_at "qa_matrix" qa))
      then ok (
          rule "R28_QA_MATRIX_REQUIRED" "blocked" "production_ready true requires qa_matrix object."
            "document"
          ∷ [])
      else later

-- R13
abbrev pub assumption_is_safe : Fields → Bool
assumption_is_safe a =
    is_str "low" (value_at "risk_level" a)
    && (flag "reversible" a
        && (flag "visible_in_output" a && not (flag "crosses_architecture_boundary" a)))

unfoldable pub assumptions_violations : ℕ → List Json → Py (List ConstructabilityViolation)
assumptions_violations index [] = ok []
assumptions_violations index (assumption ∷ rest) = do
  a ← as_dict assumption
  later ← assumptions_violations (suc index) rest
  ok (
      when (not (assumption_is_safe a)) (
        rule "R13_LOGGED_ASSUMPTION_GATE" "blocked"
          "Logged assumption must be low-risk, reversible, visible, and boundary-safe."
          ("logged_assumptions[" <> show index <> "]"))
      ++ later)

unfoldable pub logged_assumption_violations :
    Json → Json → Json → Py (List ConstructabilityViolation)
logged_assumption_violations pkg r s =
    if is_str "executable_with_logged_assumption" s
    then (do
      mine ← get "logged_assumptions" r
      theirs ← get "logged_assumptions" (or_else pkg (obj end))
      let logged = or_else mine (or_else theirs (list_of []))
      entries ← py_list logged
      invalid ← assumptions_violations 0 entries
      ok (
          when (not (truthy logged)) (
            rule "R13_LOGGED_ASSUMPTION_GATE" "blocked"
              "executable_with_logged_assumption requires at least one logged assumption."
              "document")
          ++ invalid))
    else ok []

-- The node loop.
unfoldable pub reviewed_violations : Json → Bool → Py (List ConstructabilityViolation)
reviewed_violations doc executable = do reviewed ← nodes doc; nodes_violations executable 0 reviewed

-- `evaluate_document`
unfoldable pub evaluate_document : Json → String → Py (List ConstructabilityViolation)
evaluate_document doc mode = do
  r ← review doc
  pkg ← builder_package doc
  s ← status doc
  rs ← review_status doc
  let executable = is_str "executable_ready" s
  collect (
      mode_contract doc mode
      ∷ schema_contract doc
      ∷ architect_contract doc
      ∷ strategy_map_contract doc executable
      ∷ first_batch_contract doc executable
      ∷ readiness_violations doc executable
      ∷ reviewed_violations doc executable
      ∷ executable_violations pkg r executable
      ∷ qa_violations (doc ∷ r ∷ or_else pkg (obj end) ∷ [])
      ∷ logged_assumption_violations pkg r rs
      ∷ [])
