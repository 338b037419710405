-- ===== src/Effects/Inputs.antt =====
-- validator/action_effects.py, what it reads of its three inputs: `_reviewed_by_id`,
-- `_structure_nodes`, `_approved_classes` and `_permissions`. The inputs are dicts.
use ev4_constructability_eng.Base.{
  String, ◌<>◌, Option, none, some, List, [], ◌∷◌, ◌++◌, map, not, ◌==◌, if◌then◌else◌, str_in,
}
use ev4_constructability_eng.Base.Python.{Py, ok, raise, ◌>>=◌, ◌>>◌, ensure, action_effect_error}
use ev4_constructability_eng.Json.{
  Json, str, arr, obj, nil, Fields, dict_or_empty, elems, list_or_empty, or_else, py_list, value_at,
}

-- `v or []`, as a list.
abbrev pub list_or_default : Json → Py (List Json)
list_or_default v = py_list (or_else v (arr nil))

-- The texts of a list of values, and the dicts.
abbrev pub only_texts : List Json → List String
only_texts [] = []
only_texts (str s ∷ vs) = s ∷ only_texts vs
only_texts (_ ∷ vs) = only_texts vs

abbrev pub only_dicts : List Json → List Fields
only_dicts [] = []
only_dicts (obj fs ∷ vs) = fs ∷ only_dicts vs
only_dicts (_ ∷ vs) = only_dicts vs

-- A dict of dicts under texts, in the order in which they were entered.
abbrev pub NodeMap : Type 0
NodeMap = List (String × Fields)

-- `nodes.get(k)`, where a later entry has replaced an earlier one.
abbrev pub latest : String → NodeMap → Option Fields
latest k [] = none
latest k ((j, fs) ∷ nodes) = elim (latest k nodes) [
  | none ↦ if j == k then some fs else none
  | some found ↦ some found
]

abbrev pub node_ids : NodeMap → List String
node_ids nodes = map (λ n. n.0) nodes

-- A node with its identity, if a value is one.
abbrev pub named : Fields → Json → Option (String × Fields)
named node (str s) = some (s, node)
named node _ = none

abbrev pub as_node : Json → Option (String × Fields)
as_node (obj node) = named node (value_at "node_id" node)
as_node _ = none

abbrev pub keep_nodes : List Json → NodeMap
keep_nodes [] = []
keep_nodes (v ∷ vs) = elim (as_node v) [ none ↦ keep_nodes vs | some n ↦ n ∷ keep_nodes vs ]

-- `_reviewed_by_id`
unfoldable pub reviewed_by_id : Fields → Py NodeMap
reviewed_by_id review_draft = do
  items ← list_or_default (value_at "reviewed_nodes" review_draft)
  ok (keep_nodes items)

-- `value.get(key) if isinstance(value, Mapping) else None`
abbrev pub inner : String → Json → Json
inner key v = value_at key (dict_or_empty v)

-- The value where the accepted build tree stands.
abbrev pub structure_model : Fields → Json
structure_model source_bundle =
    inner "structure_nodes" (inner "approved_structure_model" (value_at "payload" source_bundle))

abbrev pub valid_node : Option (String × Fields) → Py (String × Fields)
valid_node none =
    raise (action_effect_error "Accepted Architect Build Tree contains an invalid node")
valid_node (some n) = ok n

-- The loop of `_structure_nodes`, with the identities entered so far.
unfoldable pub nodes_loop : List String → List Json → Py NodeMap
nodes_loop seen [] = ok []
nodes_loop seen (raw ∷ rest) = do
  node ← valid_node (as_node raw)
  ensure (not (str_in node.0 seen))
      (action_effect_error ("Duplicate accepted Build Tree node: " <> node.0))
  more ← nodes_loop (node.0 ∷ seen) rest
  ok (node ∷ more)

unfoldable pub tree_of : Json → Py NodeMap
unfolding nodes_loop
tree_of (arr vs) = nodes_loop [] (elems vs)
tree_of _ = raise (action_effect_error "Accepted Architect Build Tree is missing")

-- `_structure_nodes`
unfoldable pub structure_nodes : Fields → Py NodeMap
structure_nodes source_bundle = tree_of (structure_model source_bundle)

-- `_approved_classes`
unfoldable pub approved_classes : Fields → Py (List String)
approved_classes architect_intake = do
  values ← list_or_default (
      inner "approved_class_names"
        (inner "class_intent" (value_at "architect_intent_preserved" architect_intake)))
  ok (only_texts values)

abbrev pub permissions_in : Json → List Fields
permissions_in intent = only_dicts (list_or_empty (inner "extension_permissions" intent))

-- `_permissions`
unfoldable pub permissions : Fields → Fields → List Fields
permissions architect_intake source_bundle =
    permissions_in (value_at "architect_intent_preserved" architect_intake)
    ++ permissions_in (inner "architect_intent" (value_at "payload" source_bundle))
