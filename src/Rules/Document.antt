-- ===== src/Rules/Document.antt =====
-- validator/rules.py: violations, and what the rules read from a document.
use ev4_constructability_eng.Base.{
  String, Bool, true, false, ◌&&◌, Option, none, some, List, [], ◌∷◌, ◌++◌, all, length, nat_eq,
  str_in, if◌then◌else◌,
}
use ev4_constructability_eng.Base.Int.{ℤ, pos, int_max}
use ev4_constructability_eng.Base.Python.{Py, ok, ◌>>=◌}
use ev4_constructability_eng.Json.{
  Json, null, bool, int, str, obj, get, or_else, is_null, list_or_empty, py_list, truthy,
}
use ev4_constructability_eng.Json.Build.{list_of}

pub record ConstructabilityViolation : Type 0 where
  pub rule_id : String
  pub status : String
  pub message : String
  pub location : String

abbrev pub rule : String → String → String → String → ConstructabilityViolation
rule rule_id status message location = record {
  rule_id = rule_id;
  status = status;
  message = message;
  location = location;
}

-- `if b: violations.append(v)`
abbrev pub when {ℓ} : {A : Type ℓ} → Bool → A → List A
when true v = v ∷ []
when false v = []

-- `violations.extend(m)` before the rest.
abbrev pub extend {ℓ} : {A : Type ℓ} → Py (List A) → Py (List A) → Py (List A)
extend m rest = do xs ← m; ys ← rest; ok (xs ++ ys)

-- One `extend` after the other.
unfoldable pub collect {ℓ} : {A : Type ℓ} → List (Py (List A)) → Py (List A)
collect [] = ok []
collect (m ∷ ms) = extend m (collect ms)

abbrev pub non_executable_review_statuses : List String
non_executable_review_statuses =
    "blocked" ∷ "needs_user_evidence" ∷ "needs_architect_amendment" ∷ []

abbrev pub blocking_node_statuses : List String
blocking_node_statuses = "blocked" ∷ "needs_user_evidence" ∷ "needs_architect_amendment" ∷ []

abbrev pub responsive_allowed : List String
responsive_allowed = "blocked" ∷ "evidence_backed" ∷ "not_applicable" ∷ []

abbrev pub validation_modes : List String
validation_modes = "report" ∷ "package" ∷ "full" ∷ []

abbrev pub supported_schema : String
supported_schema = "ev4-builder-executable-package@1.0.0"

-- `isinstance(value, dict) and bool(value)`
abbrev pub has_object : Json → Bool
has_object (obj fs) = truthy (obj fs)
has_object _ = false

unfoldable pub review : Json → Py Json
review doc = do r ← get "constructability_review" doc; ok (or_else r doc)

unfoldable pub builder_package : Json → Py Json
builder_package doc = get "builder_executable_package" doc

unfoldable pub strategy_map : Json → Py Json
strategy_map doc = do
  m ← get "implementation_strategy_map" doc
  ok (elim m [ obj fs ↦ obj fs | _ ↦ null ])

-- `list(x or [])`
abbrev list_or_nothing : Json → Py (List Json)
list_or_nothing v = py_list (or_else v (list_of []))

unfoldable pub nodes : Json → Py (List Json)
nodes doc = do r ← review doc; reviewed ← get "reviewed_nodes" r; list_or_nothing reviewed

unfoldable pub review_status : Json → Py Json
review_status doc = do r ← review doc; get "constructability_status" r

unfoldable pub package_status : Json → Py Json
package_status doc = do
  pkg ← builder_package doc
  if is_null pkg then ok null else get "builder_package_status" pkg

unfoldable pub status : Json → Py Json
status doc = do p ← package_status doc; if truthy p then ok p else review_status doc

unfoldable pub blocking_dependencies : Json → Py (List Json)
blocking_dependencies doc = do
  pkg ← builder_package doc
  r ← review doc
  mine ← get "blocking_dependencies" r
  deps ← list_or_nothing mine
  if is_null pkg then ok deps else do
    theirs ← get "blocking_dependencies" pkg
    more ← list_or_nothing theirs
    ok (deps ++ more)

-- `isinstance(value, int)`: a Boolean is an integer.
abbrev pub int_value : Json → Option ℤ
int_value (int n) = some n
int_value (bool true) = some (pos 1)
int_value (bool false) = some (pos 0)
int_value _ = none

abbrev max_value : Option ℤ → Option ℤ → Option ℤ
max_value none n = n
max_value (some m) none = some m
max_value (some m) (some n) = some (int_max m n)

unfoldable pub builder_decisions_required : Json → Py (Option ℤ)
builder_decisions_required doc = do
  r ← review doc
  mine ← get "builder_decisions_required" r
  pkg ← builder_package doc
  if is_null pkg then ok (int_value mine) else do
    theirs ← get "builder_decisions_required" pkg
    ok (max_value (int_value mine) (int_value theirs))

-- The strings of a list, and nothing of any other value.
abbrev pub texts : List Json → List String
texts [] = []
texts (str s ∷ vs) = s ∷ texts vs
texts (_ ∷ vs) = texts vs

abbrev pub class_names : Json → List String
class_names v = texts (list_or_empty v)

-- `set(a) == set(b)`
abbrev same_set : List String → List String → Bool
same_set a b = all (λ s. str_in s b) a && all (λ s. str_in s a) b

unfoldable pub same_class_contract : Json → Json → Bool
same_class_contract actual expected =
    nat_eq (length (class_names actual)) (length (class_names expected))
    && same_set (class_names actual) (class_names expected)
