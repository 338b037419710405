-- ===== src/Execution/Runners.antt =====
-- validator/runtime_execution.py: `_run_responsive`, `_run_interaction`, `_run_accessibility` and
-- `_run_qa`, which share the loop over the items of a target.
use ev4_constructability_eng.Base.{
  String, Bool, true, false, not, ◌&&◌, ◌⊎◌, inl, inr, List, [], ◌∷◌, ◌++◌, all, is_empty, map,
  if◌then◌else◌,
}
use ev4_constructability_eng.Base.Python.{Py, ok, ◌>>=◌}
use ev4_constructability_eng.Json.{
  Json, bool, str, arr, nil, obj, Fields, from_default, is_null, is_text, is_true, list_or_empty,
  lookup, or_else, py_eq, py_list, value_at,
}
use ev4_constructability_eng.Json.Build.{dict_of, list_of}

-- What a runner returns.
pub record RunResult : Type 0 where
  pub passed : Bool
  pub captured : List (String × Json)
  pub limitations : List Json

-- An evaluated item: its entry without the verdict, and the verdict.
abbrev pub Evaluated : Type 0
Evaluated = List (String × Json) × Bool

abbrev pub entry : Evaluated → Json
entry e = dict_of (e.0 ++ (("passed", bool e.1) ∷ []))

abbrev pub is_string : Json → Bool
is_string (str s) = true
is_string _ = false

-- A case of a responsive target.
unfoldable pub responsive_item : Json → String ⊎ Evaluated
responsive_item (obj item) =
    let viewport = value_at "viewport" item in
    let expected = value_at "expected_layout" item in
    let observed = value_at "observed_layout" item in
    if is_string viewport && (not (is_null expected) && not (is_null observed))
    then inr (
      ("viewport", viewport) ∷ ("expected_layout", expected) ∷ ("observed_layout", observed) ∷ [],
      py_eq expected observed,
    )
    else inl "Responsive runtime case is incomplete."
responsive_item _ = inl "Responsive runtime case is not structured."

-- An item that is named by a text and compares two values.
abbrev pub compared_item :
    (id_key expected_key observed_key message : String) → Fields → String ⊎ Evaluated
compared_item id_key expected_key observed_key message item =
    let expected = value_at expected_key item in
    let observed = value_at observed_key item in
    if is_string (value_at id_key item)
    then inr (
      (id_key, value_at id_key item) ∷ (expected_key, expected) ∷ (observed_key, observed) ∷ [],
      py_eq expected observed,
    )
    else inl message

-- A transition of an interaction target.
unfoldable pub interaction_item : Json → String ⊎ Evaluated
interaction_item (obj item) =
    compared_item "transition_id" "expected_state" "observed_state"
      "Interaction transition is not structured." item
interaction_item _ = inl "Interaction transition is not structured."

-- An assertion of a QA target.
unfoldable pub qa_item : Json → String ⊎ Evaluated
qa_item (obj item) =
    compared_item "assertion_id" "expected" "observed" "QA assertion is not structured." item
qa_item _ = inl "QA assertion is not structured."

-- A node of an accessibility target.
unfoldable pub accessibility_item : Json → String ⊎ Evaluated
accessibility_item (obj item) =
    let node_id = value_at "node_id" item in
    let role = value_at "role" item in
    let name = value_at "accessible_name" item in
    let operable = from_default (lookup "keyboard_operable" item) (bool true) in
    inr (
      ("node_id", node_id)
          ∷ ("role", role)
          ∷ ("accessible_name", name)
          ∷ ("keyboard_operable", operable)
          ∷ [],
      (is_text node_id && (is_text role && is_text name)) && is_true operable,
    )
accessibility_item _ = inl "Accessibility runtime node is not structured."

-- The loop over the items, which stops at the first that is badly formed.
abbrev pub add_item : String ⊎ Evaluated → String ⊎ List Evaluated → String ⊎ List Evaluated
add_item (inl message) rest = inl message
add_item (inr e) (inl message) = inl message
add_item (inr e) (inr es) = inr (e ∷ es)

unfoldable pub evaluate_items : (Json → String ⊎ Evaluated) → List Json → String ⊎ List Evaluated
evaluate_items item [] = inr []
evaluate_items item (v ∷ vs) = add_item (item v) (evaluate_items item vs)

-- A runner: the key of its items, the message on a target without items, and its item.
pub record Runner : Type 0 where
  pub runner_name : String
  pub items_key : String
  pub no_items : String
  pub item : Json → String ⊎ Evaluated

abbrev pub failed_run : String → RunResult
failed_run message = record { passed = false; captured = []; limitations = str message ∷ [] }

abbrev pub finish_run : String → Json → String ⊎ List Evaluated → Py RunResult
finish_run key limitations (inl message) = ok (failed_run message)
finish_run key limitations (inr es) = do
  limits ← py_list (or_else limitations (arr nil))
  ok (record {
    passed = all (λ e. e.1) es;
    captured = (key, list_of (map entry es)) ∷ ("passed", bool (all (λ e. e.1) es)) ∷ [];
    limitations = limits;
  })

-- `_run_responsive` and the others
unfoldable pub run : Runner → Fields → Py RunResult
run runner target =
    let items = list_or_empty (value_at runner.items_key target) in
    if is_empty items
    then ok (failed_run runner.no_items)
    else finish_run runner.items_key (value_at "limitations" target)
        (evaluate_items runner.item items)

abbrev pub responsive_runner : Runner
responsive_runner = record {
  runner_name = "_run_responsive";
  items_key = "cases";
  no_items = "Responsive runtime target has no cases.";
  item = responsive_item;
}

abbrev pub interaction_runner : Runner
interaction_runner = record {
  runner_name = "_run_interaction";
  items_key = "transitions";
  no_items = "Interaction runtime target has no transitions.";
  item = interaction_item;
}

abbrev pub accessibility_runner : Runner
accessibility_runner = record {
  runner_name = "_run_accessibility";
  items_key = "interactive_nodes";
  no_items = "Accessibility runtime target has no interactive nodes.";
  item = accessibility_item;
}

abbrev pub qa_runner : Runner
qa_runner = record {
  runner_name = "_run_qa";
  items_key = "assertions";
  no_items = "QA runtime target has no assertions.";
  item = qa_item;
}

-- `_RUNNER_BY_CLAIM`
abbrev pub runner_by_claim : List (String × Runner)
runner_by_claim =
    ("responsive_behavior", responsive_runner)
    ∷ ("interaction_validation", interaction_runner)
    ∷ ("accessibility", accessibility_runner)
    ∷ ("QA", qa_runner)
    ∷ []
