-- ===== src/Rules/Contracts.antt =====
-- validator/rules.py: the rules about the mode, the package's schema, the Architect contract, the
-- strategy map and the first Builder batch.
use ev4_constructability_eng.Base.{
  ℕ, suc, String, ◌<>◌, Bool, true, false, not, ◌&&◌, ◌||◌, List, [], ◌∷◌, ◌++◌, is_empty, ◌==◌,
  str_in, if◌then◌else◌,
}
use ev4_constructability_eng.Base.Text.{show}
use ev4_constructability_eng.Base.Python.{Py, ok, ◌>>=◌}
use ev4_constructability_eng.Json.{
  Json, obj, end, value_at, get, in_set, is_false, is_null, is_str, is_true, is_zero, list_or_empty,
  or_else, py_eq, truthy, dict_or_empty,
}
use ev4_constructability_eng.Rules.Document.{
  ConstructabilityViolation, rule, when, review, builder_package, strategy_map, review_status,
  supported_schema, non_executable_review_statuses, validation_modes, same_class_contract,
}
use ev4_constructability_eng.Rules.Unresolved.{contains_unresolved_decision}

-- `_evaluate_builder_package_schema_contract`
unfoldable pub schema_contract : Json → Py (List ConstructabilityViolation)
schema_contract doc = do
  pkg ← builder_package doc
  if is_null pkg then ok [] else do
    schema ← get "schema" pkg
    ok (
        if is_null schema
        then rule "R35_BUILDER_EXECUTABLE_PACKAGE_SCHEMA_REQUIRED" "blocked"
            ("builder_executable_package requires schema == " <> supported_schema <> ".")
            "builder_executable_package.schema"
          ∷ []
        else when (not (is_str supported_schema schema)) (
            rule "R35_BUILDER_EXECUTABLE_PACKAGE_SCHEMA_UNSUPPORTED" "blocked"
              ("builder_executable_package.schema must be " <> supported_schema <> ".")
              "builder_executable_package.schema"))

-- The candidates and the classes against a contract that is an object.
unfoldable pub match_violations : Json → Json → Json → Json → Json → List ConstructabilityViolation
match_violations review_candidate package_candidate contract_candidate package_classes
      contract_classes =
    when
      (not (py_eq package_candidate contract_candidate)
        || not (py_eq review_candidate contract_candidate))
      (rule "R23_ARCHITECT_CONTRACT_MISMATCH" "blocked"
        "selected_candidate_id must match architect_contract in review and package."
        "builder_executable_package.selected_candidate_id")
    ++ when (not (same_class_contract package_classes contract_classes)) (
        rule "R23_ARCHITECT_CONTRACT_MISMATCH" "blocked"
          "approved_class_names must match architect_contract exactly; Builder may not add or remove classes."
          "builder_executable_package.approved_class_names")

-- The rest of the function, once `architect_contract` is read from the package.
unfoldable pub contract_violations : Json → Json → Json → Py (List ConstructabilityViolation)
contract_violations doc pkg (obj contract) = do
  r ← review doc
  review_candidate ← get "selected_candidate_id" r
  package_candidate ← get "selected_candidate_id" pkg
  package_classes ← get "approved_class_names" pkg
  ok (
      match_violations review_candidate package_candidate
        (value_at "selected_candidate_id" contract) package_classes
        (value_at "approved_class_names" contract))
contract_violations doc pkg _ = ok (
    rule "R22_ARCHITECT_CONTRACT_REQUIRED" "blocked"
      "Builder package requires architect_contract with canonical selected_candidate_id and approved_class_names."
      "builder_executable_package.architect_contract"
    ∷ [])

-- `_evaluate_architect_contract`
unfoldable pub architect_contract : Json → Py (List ConstructabilityViolation)
unfolding contract_violations match_violations
architect_contract doc = do
  pkg ← builder_package doc
  if is_null pkg
      then ok []
      else do contract ← get "architect_contract" pkg; contract_violations doc pkg contract

-- One round of the loop over the strategies; an entry that is no object has one violation.
abbrev strategy_location : ℕ → String
strategy_location index = "implementation_strategy_map.strategies[" <> show index <> "]"

unfoldable pub strategy_violations : ℕ → Json → List ConstructabilityViolation
strategy_violations index (obj fs) =
    when (not (is_zero (value_at "builder_decisions_required" fs))) (
      rule "R33_IMPLEMENTATION_STRATEGY_ZERO_BUILDER_DECISIONS" "blocked"
        "Executable strategy map requires every strategy.builder_decisions_required == 0."
        (strategy_location index <> ".builder_decisions_required"))
    ++ when (is_true (value_at "architect_amendment_required" fs)) (
        rule "R33_IMPLEMENTATION_STRATEGY_NO_ARCHITECT_AMENDMENT" "blocked"
          "Executable strategy map must not require Architect amendment."
          (strategy_location index <> ".architect_amendment_required"))
strategy_violations index _ =
    rule "R33_IMPLEMENTATION_STRATEGY_MAP_STRATEGY_OBJECT_REQUIRED" "blocked"
      "Each strategy must be an object." (strategy_location index)
    ∷ []

unfoldable pub strategies_violations : ℕ → List Json → List ConstructabilityViolation
unfolding strategy_violations
strategies_violations index [] = []
strategies_violations index (s ∷ ss) =
    strategy_violations index s ++ strategies_violations (suc index) ss

-- The tail of `_evaluate_strategy_map_contract`, for a map that is there.
unfoldable pub strategy_list_violations : Json → List ConstructabilityViolation
unfolding strategies_violations
strategy_list_violations strategies =
    if is_empty (list_or_empty strategies)
    then rule "R33_IMPLEMENTATION_STRATEGY_MAP_STRATEGIES_REQUIRED" "blocked"
        "Executable implementation_strategy_map requires at least one strategy."
        "implementation_strategy_map.strategies"
      ∷ []
    else strategies_violations 0 (list_or_empty strategies)

-- `_evaluate_strategy_map_contract`
unfoldable pub strategy_map_contract : Json → Bool → Py (List ConstructabilityViolation)
unfolding strategy_list_violations
strategy_map_contract doc false = ok []
strategy_map_contract doc true = do
  pkg ← builder_package doc
  r ← review doc
  smap ← strategy_map doc
  map_ref ← get "strategy_map_ref" (or_else pkg (obj end))
  if is_null smap
      then ok (
          when (truthy map_ref) (
            rule "R33_IMPLEMENTATION_STRATEGY_MAP_REQUIRED" "blocked"
              "Executable package with strategy_map_ref requires implementation_strategy_map."
              "implementation_strategy_map"))
      else do
        expected ← get "selected_candidate_id" (or_else pkg r)
        candidate ← get "selected_candidate_id" smap
        strategies ← get "strategies" smap
        ok (
            when (truthy expected && not (py_eq candidate expected)) (
              rule "R33_IMPLEMENTATION_STRATEGY_MAP_CANDIDATE_MISMATCH" "blocked"
                "implementation_strategy_map.selected_candidate_id must match executable package candidate."
                "implementation_strategy_map.selected_candidate_id")
            ++ strategy_list_violations strategies)

abbrev action_location : ℕ → String
action_location index =
    "builder_executable_package.first_safe_builder_batch.actions[" <> show index <> "]"

-- One round of the loop over the first batch; an entry that is no object is passed over.
unfoldable pub action_violations : ℕ → Json → List ConstructabilityViolation
action_violations index (obj fs) =
    when (not (is_false (value_at "requires_decision" fs))) (
      rule "R34_FIRST_BATCH_ACTION_REQUIRES_DECISION_FALSE" "blocked"
        "First Builder batch actions must have requires_decision false."
        (action_location index <> ".requires_decision"))
    ++ when (contains_unresolved_decision (value_at "parameters" fs)) (
        rule "R34_FIRST_BATCH_PARAMETERS_NO_UNRESOLVED_DECISIONS" "blocked"
          "First Builder batch parameters must not contain unresolved Builder, user, or Architect decisions."
          (action_location index <> ".parameters"))
action_violations index _ = []

unfoldable pub actions_violations : ℕ → List Json → List ConstructabilityViolation
unfolding action_violations
actions_violations index [] = []
actions_violations index (a ∷ as') = action_violations index a ++ actions_violations (suc index) as'

-- `_evaluate_first_batch_decision_contract`
unfoldable pub first_batch_contract : Json → Bool → Py (List ConstructabilityViolation)
unfolding actions_violations
first_batch_contract doc false = ok []
first_batch_contract doc true = do
  pkg ← builder_package doc
  batch ← get "first_safe_builder_batch" (or_else pkg (obj end))
  ok (actions_violations 0 (list_or_empty (value_at "actions" (dict_or_empty batch))))

-- `_evaluate_mode_contract`
abbrev non_executable : Bool → Json → Py Bool
non_executable present s = if present then in_set non_executable_review_statuses s else ok false

unfoldable pub mode_contract : Json → String → Py (List ConstructabilityViolation)
mode_contract doc mode = do
  s ← review_status doc
  pkg ← builder_package doc
  let present = not (is_null pkg)
  if not (str_in mode validation_modes)
      then ok (
          rule "R00_INVALID_VALIDATION_MODE" "blocked" ("Unsupported mode: " <> mode <> ".")
            "document"
          ∷ [])
      else do
        refused ← non_executable present s
        ok (
            when (mode == "report" && present) (
              rule "R17_REPORT_MODE_MUST_NOT_EMIT_BUILDER_PACKAGE" "blocked"
                "report mode validates review output only; package must be absent." "document")
            ++ (when (mode == "package" && not present) (
                  rule "R18_PACKAGE_MODE_REQUIRES_BUILDER_PACKAGE" "blocked"
                    "package mode requires builder_executable_package." "document")
                ++ (when refused (
                      rule "R19_NON_EXECUTABLE_REVIEW_MUST_NOT_EMIT_BUILDER_PACKAGE" "blocked"
                        "A non-executable review must not include a Builder package." "document")
                    ++ when (mode == "package" && not (is_str "executable_ready" s)) (
                        rule "R20_PACKAGE_MODE_REQUIRES_EXECUTABLE_REVIEW" "blocked"
                          "package mode requires constructability_status == executable_ready."
                          "document"))))
