-- ===== src/Review/Nodes.antt =====
-- validator/review_obligations.py, `_structure_nodes`: the nodes of the Architect, on which the
-- intake and the source bundle must agree.
use ev4_constructability_eng.Base.{
  String, ◌<>◌, Bool, false, not, ◌&&◌, none, some, List, [], ◌∷◌, all, map, if◌then◌else◌, str_in,
}
use ev4_constructability_eng.Base.Sorting.{sort_texts}
use ev4_constructability_eng.Base.Python.{
  Py, ok, raise, ◌>>=◌, ◌>>◌, ensure, obligation_derivation_error,
}
use ev4_constructability_eng.Json.{
  Json, str, obj, Fields, end, is_arr, list_or_empty, or_else, py_eq, value_at,
}
use ev4_constructability_eng.Json.Build.{list_of}
use ev4_constructability_eng.Json.Host.{Host}
use ev4_constructability_eng.Effects.Inputs.{NodeMap, inner, latest, list_or_default, node_ids}

abbrev pub refuse {ℓ} : {A : Type ℓ} → String → Py A
refuse message = raise (obligation_derivation_error message)

-- What differs between the two loops that read nodes: the key of the identity, and the messages.
pub record Wording : Type 0 where
  pub id_key : String
  pub invalid_node : String
  pub no_identity : String
  pub duplicate_node : String

abbrev pub intake_wording : Wording
intake_wording = record {
  id_key = "source_node_id";
  invalid_node = "Architect intake contains an invalid structure node";
  no_identity = "Architect intake structure node has no source_node_id";
  duplicate_node = "Duplicate Architect intake node: ";
}

abbrev pub bundle_wording : Wording
bundle_wording = record {
  id_key = "node_id";
  invalid_node = "Architect source bundle contains an invalid structure node";
  no_identity = "Architect source bundle structure node has no node_id";
  duplicate_node = "Duplicate Architect source node: ";
}

abbrev pub node_fields : Wording → Json → Py Fields
node_fields w (obj fs) = ok fs
node_fields w _ = refuse w.invalid_node

-- A nonempty text.
abbrev pub nonempty_text : Wording → Json → Py String
nonempty_text w (str String.[]) = refuse w.no_identity
nonempty_text w (str (String.◌∷◌ c s)) = ok (String.◌∷◌ c s)
nonempty_text w _ = refuse w.no_identity

-- Each of the two loops, with the identities seen so far.
unfoldable pub normalize_nodes : Wording → List String → List Json → Py NodeMap
normalize_nodes w seen [] = ok []
normalize_nodes w seen (v ∷ vs) = do
  node ← node_fields w v
  node_id ← nonempty_text w (value_at w.id_key node)
  ensure (not (str_in node_id seen)) (obligation_derivation_error (w.duplicate_node <> node_id))
  more ← normalize_nodes w (node_id ∷ seen) vs
  ok ((node_id, node) ∷ more)

-- `set(a) != set(b)` is false.
abbrev pub same_set : List String → List String → Bool
same_set ss ts = all (λ s. str_in s ts) ss && all (λ t. str_in t ss) ts

-- A node on which both agree.
pub record ReviewNode : Type 0 where
  pub node_id : String
  pub node_kind : String
  pub parent_node_id : Json
  pub children : List Json
  pub evidence_refs : List String

abbrev pub fields_at : String → NodeMap → Fields
fields_at node_id nodes = elim (latest node_id nodes) [ none ↦ end | some fs ↦ fs ]

-- The comparison of the two nodes of an identity, which stops at the first difference.
unfoldable pub same_node : Fields → Fields → Py Bool
same_node intake_node source_node =
    if py_eq (value_at "parent_node_id" intake_node) (value_at "parent_node_id" source_node)
    then (do
      left ← list_or_default (value_at "children" intake_node)
      right ← list_or_default (value_at "children" source_node)
      ok (
          py_eq (list_of left) (list_of right)
          && py_eq (value_at "node_kind" intake_node) (value_at "node_kind" source_node)))
    else ok false

module _ (host : Host) where
  open host use {py_str}

  unfoldable pub review_node : String → Fields → Fields → Py ReviewNode
  review_node node_id intake_node source_node = do
    same ← same_node intake_node source_node
    ensure same (obligation_derivation_error ("Architect node identity differs for " <> node_id))
    children ← list_or_default (value_at "children" source_node)
    refs ← list_or_default (value_at "evidence_refs" source_node)
    ok (record {
      node_id = node_id;
      node_kind = py_str (or_else (value_at "node_kind" source_node) (str "implementation_node"));
      parent_node_id = value_at "parent_node_id" source_node;
      children = children;
      evidence_refs = sort_texts (map py_str refs);
    })

  -- The loop over the sorted identities.
  unfoldable pub review_nodes : NodeMap → NodeMap → List String → Py (List ReviewNode)
  review_nodes intake_nodes bundle_nodes [] = ok []
  review_nodes intake_nodes bundle_nodes (node_id ∷ ids) = do
    node ← review_node node_id (fields_at node_id intake_nodes) (fields_at node_id bundle_nodes)
    more ← review_nodes intake_nodes bundle_nodes ids
    ok (node ∷ more)

  -- The two values where the nodes stand.
  abbrev pub intake_nodes_at : Fields → Json
  intake_nodes_at intake = inner "nodes" (value_at "structure_projection" intake)

  abbrev pub bundle_nodes_at : Fields → Json
  bundle_nodes_at source_bundle =
      inner "structure_nodes" (inner "approved_structure_model" (value_at "payload" source_bundle))

  -- `_structure_nodes`
  unfoldable pub structure_nodes : Fields → Fields → Py (List ReviewNode)
  structure_nodes intake source_bundle = do
    let left = intake_nodes_at intake
    let right = bundle_nodes_at source_bundle
    ensure (is_arr left && is_arr right)
        (obligation_derivation_error "Canonical Architect structure nodes are missing")
    normalized_intake ← normalize_nodes intake_wording [] (list_or_empty left)
    normalized_bundle ← normalize_nodes bundle_wording [] (list_or_empty right)
    ensure (same_set (node_ids normalized_intake) (node_ids normalized_bundle)) (
        obligation_derivation_error
          "Architect intake and source bundle structure identities differ")
    review_nodes normalized_intake normalized_bundle (sort_texts (node_ids normalized_intake))
