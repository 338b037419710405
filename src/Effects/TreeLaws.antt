-- ===== src/Effects/TreeLaws.antt =====
-- The accepted build tree that is read, and that a normalized action never lacks a parameter that
-- its change of the tree needs.
use ev4_constructability_eng.Base.{
  ◌≡◌, ◌≢◌, refl, sym, ap, subst, ◌∙◌, ◌↔◌, inl, inr, String, Bool, true, false, not, ◌==◌, Option,
  none, some, List, [], ◌∷◌, All-Memᴰ, map, Bool-cases, Option-cases, eq_iff, not-true, str_in,
  str_in-Memᴰ,
}
use ev4_constructability_eng.Base.Python.{ok, >>=-eq-ok, ensure-then, ok-injective}
use ev4_constructability_eng.Json.{Json, arr, Items, Fields, elems, has_key, lookup}
use ev4_constructability_eng.Json.Host.{Host}
use ev4_constructability_eng.Registry.Contract.{ActionContract}
use ev4_constructability_eng.Registry.Actions.{contract_for}
use ev4_constructability_eng.Actions.Laws.{IsNormal}
use ev4_constructability_eng.Actions.Normalize.{ActionIr}
use ev4_constructability_eng.Effects.ClassEffect.{text_at}
use ev4_constructability_eng.Effects.Inputs.{
  NodeMap, as_node, node_ids, nodes_loop, structure_model, structure_nodes, tree_of, valid_node,
}
use ev4_constructability_eng.Effects.Permits.{arr-injective, in_two}
use ev4_constructability_eng.Effects.StructureEffect.{
  TreeChange, create_change, no_change, remove_change, rename_change, reparent_change,
  replace_change, tree_change,
}

-- No text is among those seen, and no two are equal.
abbrev pub FreshIn : List String → List String → Type 0
FreshIn seen [] = Unit
FreshIn seen (i ∷ is) = (str_in i seen ≡ false) × FreshIn (i ∷ seen) is

-- A list of nodes, each an object with a text for its identity, and no two with the same.
abbrev pub IsTree : Json → NodeMap → Type 0
IsTree v tree =
    (vs : Items) × (v ≡ arr vs)
    × (map as_node (elems vs) ≡ map some tree)
    × FreshIn [] (node_ids tree)

valid_node-some :
    (o : Option (String × Fields)) (n : String × Fields) → valid_node o ≡ ok n → o ≡ some n
valid_node-some none n h = cc
valid_node-some (some m) n h = ap some (ok-injective h)

nodes_loop-nonempty :
    (seen : List String) (v : Json) (vs : List Json) → nodes_loop seen (v ∷ vs) ≢ ok []
unfolding nodes_loop
nodes_loop-nonempty seen v vs h =
    let (m, _, h1) = >>=-eq-ok (valid_node (as_node v)) _ h in
    let (_, h2) = ensure-then (not (str_in m.0 seen)) _ _ h1 in
    let (more, _, h3) = >>=-eq-ok (nodes_loop (m.0 ∷ seen) vs) _ h2 in cc

nodes_loop_iff :
    (seen : List String) (vs : List Json) (tree : NodeMap)
    → (nodes_loop seen vs ≡ ok tree)
      ↔ ((map as_node vs ≡ map some tree) × FreshIn seen (node_ids tree))
unfolding nodes_loop
nodes_loop_iff seen [] [] = (λ h. (refl, tt), λ h. refl)
nodes_loop_iff seen [] (n ∷ tree) = (λ h. cc, λ (h, _). cc)
nodes_loop_iff seen (v ∷ vs) [] = (λ h. elim (nodes_loop-nonempty seen v vs h) [ ], λ (h, _). cc)
nodes_loop_iff seen (v ∷ vs) (n ∷ tree) = (
  λ h.
      let (m, valid, h1) = >>=-eq-ok (valid_node (as_node v)) _ h in
      let (fresh, h2) = ensure-then (not (str_in m.0 seen)) _ _ h1 in
      let (more, looped, h3) = >>=-eq-ok (nodes_loop (m.0 ∷ seen) vs) _ h2 in
      let (rest, later) = (nodes_loop_iff (m.0 ∷ seen) vs more).0 looped in
      let here = valid_node-some (as_node v) m valid in
      subst (λ t. (map as_node (v ∷ vs) ≡ map some t) × FreshIn seen (node_ids t)) (ok-injective h3)
        (cc, (not-true _ fresh, later)),
  λ (h, (fresh, later)).
      let here : as_node v ≡ some n = cc in
      let rest : map as_node vs ≡ map some tree = cc in
      rw (here, fresh, (nodes_loop_iff (n.0 ∷ seen) vs tree).1 (rest, later)),
)

-- The accepted build tree is read exactly when there is a list of nodes at its place in the
-- bundle, each an object with a text for its identity and no two with the same; it has these nodes
-- in their order. Otherwise an exception is raised.
pub structure_nodes_iff :
    (source_bundle : Fields) (tree : NodeMap)
    → (structure_nodes source_bundle ≡ ok tree) ↔ IsTree (structure_model source_bundle) tree
unfolding structure_nodes tree_of
structure_nodes_iff source_bundle tree = tree_of_iff (structure_model source_bundle)
  where
    tree_of_iff : (v : Json) → (tree_of v ≡ ok tree) ↔ IsTree v tree
    tree_of_iff (arr vs) = (
      λ h. let (a, b) = (nodes_loop_iff [] (elems vs) tree).0 h in (vs, refl, a, b),
      λ (ws, e, a, b). (nodes_loop_iff [] (elems vs) tree).1 (
          subst (λ us. (map as_node (elems us) ≡ map some tree) × FreshIn [] (node_ids tree))
            (arr-injective (sym e)) (a, b)),
    )
    tree_of_iff _ = (λ h. cc, λ (ws, e, a, b). cc)

has_key-text_at :
    (host : Host) (key : String) (fs : Fields)
    → has_key key fs ≡ true
    → (s : String) × (text_at host key fs ≡ ok s)
unfolding text_at
has_key-text_at host key fs h = elim (Option-cases (lookup key fs)) [
  | inl e ↦ cc (rw e at h)
  | inr (v, e) ↦ (host.py_str v, rw (text_at, e))
]

-- The contract of a type requires a parameter.
abbrev requires : Option ActionContract → String → Bool
requires none key = false
requires (some c) key = str_in key c.required_parameter_keys

module _ (host : Host) (action : Fields) (ir : ActionIr) (normal : IsNormal action ir) where
  -- A parameter that the contract of the action's type requires is there.
  parameter_lem :
      (t key : String)
      → requires (contract_for t) key ≡ true
      → ir.action_type ≡ t
      → (s : String) × (text_at host key ir.normalized_parameters ≡ ok s)
  parameter_lem t key required is_t = has_key-text_at host key ir.normalized_parameters (
      All-Memᴰ (λ k. has_key k ir.normalized_parameters ≡ true) key
        normal.contract.required_parameter_keys normal.keys_present
        (str_in-Memᴰ key normal.contract.required_parameter_keys (
          subst (λ o. requires o key ≡ true) (ap contract_for (sym is_t) ∙ normal.in_table)
            required)))

  moved_lem :
      str_in ir.action_type ("reparent_element" ∷ "move_element" ∷ []) ≡ true
      → (s : String) × (text_at host "new_parent_node_id" ir.normalized_parameters ≡ ok s)
  unfolding contract_for
  moved_lem h = elim ((in_two ir.action_type "reparent_element" "move_element").0 h) [
    | inl e ↦ parameter_lem "reparent_element" "new_parent_node_id" refl e
    | inr e ↦ parameter_lem "move_element" "new_parent_node_id" refl e
  ]

  created_lem :
      (key : String)
      → requires (contract_for "create_element") key ≡ true
      → (ir.action_type == "create_element") ≡ true
      → (s : String) × (text_at host key ir.normalized_parameters ≡ ok s)
  created_lem key required h =
      parameter_lem "create_element" key required ((eq_iff ir.action_type "create_element").0 h)

  -- A normalized action has every parameter that its change of the tree reads, so that no KeyError
  -- is raised, whatever its type.
  pub tree_change-ok :
      (tree : NodeMap)
      → (change : TreeChange) × (tree_change host tree ir.action_type ir.target_node
            ir.normalized_parameters
          ≡ ok change)
  unfolding tree_change contract_for
  tree_change-ok tree = elim (Bool-cases (ir.action_type == "create_element")) [
    | inl e ↦
        let (n, has_n) = created_lem "produced_node_id" refl e in
        let (p, has_p) = created_lem "parent_node_id" refl e in
        (create_change tree n p, rw (e, has_n, has_p))
    | inr e ↦ elim (Bool-cases (str_in ir.action_type ("remove_element" ∷ "delete_element" ∷ []))) [
      | inl f ↦ (remove_change ir.target_node, rw (e, f))
      | inr f ↦
          elim (Bool-cases (str_in ir.action_type ("reparent_element" ∷ "move_element" ∷ []))) [
            | inl g ↦
                let (p, has_p) = moved_lem g in
                (reparent_change tree ir.target_node p, rw (e, f, g, has_p))
            | inr g ↦ elim (Bool-cases (ir.action_type == "replace_element")) [
              | inl k ↦
                  let (n, has_n) =
                    parameter_lem "replace_element" "replacement_node_id" refl
                      ((eq_iff ir.action_type "replace_element").0 k) in
                  (replace_change ir.target_node n, rw (e, f, g, k, has_n))
              | inr k ↦ elim (Bool-cases (ir.action_type == "rename_node")) [
                | inl m ↦
                    let (n, has_n) =
                      parameter_lem "rename_node" "new_node_id" refl
                        ((eq_iff ir.action_type "rename_node").0 m) in
                    (rename_change ir.target_node n, rw (e, f, g, k, m, has_n))
                | inr m ↦ (no_change, rw (e, f, g, k, m))
              ]
            ]
          ]
    ]
  ]
