-- ===== src/Review/Derive.antt =====
-- validator/review_obligations.py, `derive_review_obligations`.
use ev4_constructability_eng.Base.{
  ℕ, suc, String, ◌<>◌, Bool, false, not, ◌&&◌, ◌||◌, ◌==◌, Option, none, some, List, [], ◌∷◌, ◌++◌,
  any, keep, leb, map, if◌then◌else◌, str_in,
}
use ev4_constructability_eng.Base.Sorting.{sort_texts}
use ev4_constructability_eng.Base.Python.{Py, ok, raise, ◌>>=◌, action_effect_error}
use ev4_constructability_eng.Json.{Fields, list_or_empty, value_at}
use ev4_constructability_eng.Json.Host.{Host}
use ev4_constructability_eng.Effects.ClassEffect.{outside, sorted_set}
use ev4_constructability_eng.Effects.Derive.{derive_action_effects}
use ev4_constructability_eng.Effects.Inputs.{NodeMap, keep_nodes, node_ids}
use ev4_constructability_eng.Effects.Records.{
  ActionEffects, ClassEffect, EffectRecord, StructureEffect,
}
use ev4_constructability_eng.Review.Inputs.{ReviewAction, action_map}
use ev4_constructability_eng.Review.Nodes.{ReviewNode, structure_nodes}
use ev4_constructability_eng.Review.Unit.{
  ReviewDiagnostic, ReviewUnit, derivation_failed, duplicate_review_unit, of_effects,
  orphan_draft_node, required_node_missing, review_code, review_unit, unknown_action_target,
}

-- `Counter(ids)[node_id]`
abbrev pub count_of : String → List String → ℕ
count_of node_id [] = 0
count_of node_id (i ∷ ids) =
    if i == node_id then suc (count_of node_id ids) else count_of node_id ids

abbrev pub repeated : List String → List String
repeated ids = keep (λ i. leb 2 (count_of i ids)) ids

-- How the units of the draft and the targets of its actions fit the Architect's nodes.
pub record Coverage : Type 0 where
  pub missing_nodes : List String
  pub orphan_nodes : List String
  pub duplicate_nodes : List String
  pub unknown_action_targets : List String

unfoldable pub coverage_of : List String → List String → List String → Coverage
coverage_of required_ids reviewed_ids targets = record {
  missing_nodes = sorted_set (outside reviewed_ids required_ids);
  orphan_nodes = sorted_set (outside required_ids reviewed_ids);
  duplicate_nodes = sorted_set (repeated reviewed_ids);
  unknown_action_targets = sorted_set (outside required_ids targets);
}

abbrev pub coverage_diagnostics : Coverage → List ReviewDiagnostic
coverage_diagnostics c =
    map required_node_missing c.missing_nodes
    ++ (map orphan_draft_node c.orphan_nodes
        ++ (map duplicate_review_unit c.duplicate_nodes
            ++ map unknown_action_target c.unknown_action_targets))

-- The effects, or what is put in their place: no records, and the message of the failure.
pub record ReviewEffects : Type 0 where
  pub records : List EffectRecord
  pub diagnostics : List ReviewDiagnostic
  pub complete : Bool

-- The `try` around `derive_action_effects`, which catches `ActionEffectError` only.
unfoldable pub review_effects : Py ActionEffects → Py ReviewEffects
review_effects (ok e) = ok (record {
  records = e.records;
  diagnostics = map of_effects e.diagnostics;
  complete = e.complete;
})
review_effects (raise (action_effect_error message)) =
    ok (record { records = []; diagnostics = derivation_failed message ∷ []; complete = false })
review_effects (raise e) = raise e

abbrev pub blocking_codes : List String
blocking_codes =
    "CE_OBLIGATION_REQUIRED_NODE_MISSING" ∷ "CE_OBLIGATION_ORPHAN_DRAFT_NODE"
    ∷ "CE_OBLIGATION_DUPLICATE_REVIEW_UNIT" ∷ "CE_OBLIGATION_UNKNOWN_ACTION_TARGET"
    ∷ "CE_OBLIGATION_UNKNOWN_ACTION_TYPE" ∷ "CE_OBLIGATION_NODE_HAS_NO_BUILDER_ACTION"
    ∷ "CE_OBLIGATION_EMPTY_CLAIM_SET_UNPROVEN" ∷ "CE_ACTION_EFFECT_DERIVATION_FAILED"
    ∷ "CE_ACTION_EFFECT_ACTION_INVALID" ∷ "CE_ACTION_EFFECT_ACTION_IDENTITY_INCOMPLETE"
    ∷ "CE_ACTION_EFFECT_UNAPPROVED_CLASS" ∷ "CE_ACTION_EFFECT_APPROVED_CLASS_REMOVED_OR_REPLACED"
    ∷ "CE_ACTION_EFFECT_CLASS_PARAMETERS_MISSING" ∷ "CE_ACTION_EFFECT_STRUCTURE_PERMISSION_REQUIRED"
    ∷ "CE_ACTION_EFFECT_PRODUCED_NODE_ID_REQUIRED" ∷ "CE_ACTION_EFFECT_PRODUCED_NODE_ALREADY_EXISTS"
    ∷ "CE_ACTION_EFFECT_PARENT_OUTSIDE_BUILD_TREE"
    ∷ "CE_ACTION_EFFECT_NEW_PARENT_OUTSIDE_BUILD_TREE"
    ∷ "CE_ACTION_EFFECT_REPLACEMENT_NODE_ID_REQUIRED" ∷ "CE_ACTION_EFFECT_NEW_NODE_ID_REQUIRED"
    ∷ "CE_ACTION_EFFECT_TARGET_OUTSIDE_BUILD_TREE" ∷ "CE_ACTION_EFFECT_FORBIDDEN_WORK_CONFLICT"
    ∷ "CE_ACTION_EFFECT_PARAMETERS_INVALID" ∷ []

unfoldable pub is_blocking : ReviewDiagnostic → Bool
is_blocking d = str_in (review_code d) blocking_codes

-- A record has an effect that needs a permission and has none.
abbrev pub class_unpermitted : Option ClassEffect → Bool
class_unpermitted none = false
class_unpermitted (some e) = e.permission_required && not e.permission_granted

abbrev pub structure_unpermitted : Option StructureEffect → Bool
structure_unpermitted none = false
structure_unpermitted (some e) = e.permission_required && not e.permission_granted

abbrev pub needs_permission : EffectRecord → Bool
needs_permission r = class_unpermitted r.class_effect || structure_unpermitted r.structure_effect

-- The four dicts by node are the fields of the units.
pub record ReviewObligations : Type 0 where
  pub required_architect_nodes : List ReviewNode
  pub required_review_units : List String
  pub units : List ReviewUnit
  pub action_effects : ReviewEffects
  pub required_strategy_coverage : List String
  pub required_builder_decision_checks : List String
  pub required_architect_permissions : List String
  pub explicit_no_claim_nodes : List String
  pub coverage : Coverage
  pub diagnostics : List ReviewDiagnostic
  pub complete : Bool

abbrev pub unit_diagnostics : List ReviewUnit → List ReviewDiagnostic
unit_diagnostics [] = []
unit_diagnostics (u ∷ us) = u.diagnostics ++ unit_diagnostics us

abbrev pub all_diagnostics : Coverage → ReviewEffects → List ReviewUnit → List ReviewDiagnostic
all_diagnostics coverage effects units =
    coverage_diagnostics coverage ++ (effects.diagnostics ++ unit_diagnostics units)

abbrev pub ids_of : List ReviewNode → List String
ids_of nodes = map (λ (n : ReviewNode). n.node_id) nodes

unfoldable pub build_obligations :
    List ReviewNode
    → List ReviewAction
    → Coverage
    → ReviewEffects
    → List ReviewUnit
    → ReviewObligations
build_obligations nodes actions coverage effects units = record {
  required_architect_nodes = nodes;
  required_review_units = map (λ i. "ce-unit-" <> i) (ids_of nodes);
  units = units;
  action_effects = effects;
  required_strategy_coverage = ids_of nodes;
  required_builder_decision_checks = sort_texts (map (λ (a : ReviewAction). a.action_id) actions);
  required_architect_permissions =
      sort_texts (map (λ (r : EffectRecord). r.action_id) (keep needs_permission effects.records));
  explicit_no_claim_nodes =
      sort_texts
        (map (λ (u : ReviewUnit). u.node_id) (keep (λ (u : ReviewUnit). u.without_claim) units));
  coverage = coverage;
  diagnostics = all_diagnostics coverage effects units;
  complete = not (any is_blocking (all_diagnostics coverage effects units));
}

-- The units of a draft, under their identities.
abbrev pub reviewed_nodes : Fields → NodeMap
reviewed_nodes review_draft = keep_nodes (list_or_empty (value_at "reviewed_nodes" review_draft))

module _ (host : Host) where
  -- The loop over the Architect's nodes.
  unfoldable pub review_units :
      List EffectRecord → List ReviewAction → NodeMap → List String → Py (List ReviewUnit)
  review_units records actions reviewed [] = ok []
  review_units records actions reviewed (node_id ∷ ids) = do
    unit ← review_unit host records actions reviewed node_id
    more ← review_units records actions reviewed ids
    ok (unit ∷ more)

  -- `derive_review_obligations`, with the default registry
  unfoldable pub derive_review_obligations : Fields → Fields → Fields → Py ReviewObligations
  derive_review_obligations architect_intake source_bundle review_draft = do
    nodes ← structure_nodes host architect_intake source_bundle
    let reviewed = reviewed_nodes review_draft
    actions ← action_map review_draft
    let coverage =
        coverage_of (ids_of nodes) (node_ids reviewed)
          (map (λ (a : ReviewAction). a.target_node) actions)
    effects ←
        review_effects (derive_action_effects host architect_intake source_bundle review_draft)
    units ← review_units effects.records actions reviewed (ids_of nodes)
    ok (build_obligations nodes actions coverage effects units)
