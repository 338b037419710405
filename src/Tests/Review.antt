-- ===== src/Tests/Review.antt =====
-- The review obligations of a concrete draft.
use ev4_constructability_eng.Base.{◌≡◌, ◌↔◌, refl, true, false, List, [], ◌∷◌, All, map}
use ev4_constructability_eng.Base.Text.{casefold, contains, ends_with, show, strip}
use ev4_constructability_eng.Base.Sorting.{distinct, insert_by, sort_by, sort_texts}
use ev4_constructability_eng.Base.Python.{Py, ok, raise}
use ev4_constructability_eng.Json.{py_eq}
use ev4_constructability_eng.Json.Build.{fields_of, texts_of}
use ev4_constructability_eng.Registry.Actions.{contract_for}
use ev4_constructability_eng.Actions.Canonical.{canonical, insert_field}
use ev4_constructability_eng.Actions.Hidden.{
  asks_decision, hidden_decisions, is_open_text, offers_options,
}
use ev4_constructability_eng.Actions.Values.{normalize_value}
use ev4_constructability_eng.Actions.Parameters.{
  append_field, class_checks, normalized_parameters, parameter_loop, parameter_step,
}
use ev4_constructability_eng.Actions.Normalize.{
  build_ir, normalize_action, normalize_known, unknown_top,
}
use ev4_constructability_eng.Effects.BuildRecord.{
  build_record, conflicts_with, forbidden_conflicts, record_reports,
}
use ev4_constructability_eng.Effects.ClassEffect.{
  class_change, class_diagnostics, class_effect, class_permission, replacements_of, text_at,
}
use ev4_constructability_eng.Effects.Derive.{
  derive_action_effects, effect_inputs, effect_record, effects_loop, invalid_record, record_of,
}
use ev4_constructability_eng.Effects.Inputs.{
  NodeMap, approved_classes, nodes_loop, permissions, reviewed_by_id, structure_nodes, tree_of,
}
use ev4_constructability_eng.Effects.Permissions.{
  any_matches, permission_granted, permission_matches,
}
use ev4_constructability_eng.Effects.StructureEffect.{
  structure_diagnostics, structure_effect, tree_change,
}
use ev4_constructability_eng.Tests.Data.{test_host}
use ev4_constructability_eng.Registry.Claims.{derive_action_claims, policy, policy_for}
use ev4_constructability_eng.Review.Derive.{
  ReviewObligations, build_obligations, coverage_of, derive_review_obligations, ids_of, is_blocking,
  review_effects, review_units, reviewed_nodes,
}
use ev4_constructability_eng.Review.ContentLaws.{HasClaims, review_unit-ok}
use ev4_constructability_eng.Review.DeriveLaws.{IsComplete, derive_review_obligations_iff}
use ev4_constructability_eng.Review.Inputs.{
  ReviewAction, action_loop, action_map, hint_claims, requested_claims,
}
use ev4_constructability_eng.Review.Nodes as ReviewNodes
use ev4_constructability_eng.Review.Unit.{
  ReviewUnit, mandatory_claims, record_for, review_unit, rules_of, unit_reports,
}
use ev4_constructability_eng.Review.UnitClaims.{derive_review_obligations-HasClaims}
use ev4_constructability_eng.Tests.Effects.{bundle, draft, intake}

unfoldable obligations : Py ReviewObligations
obligations = derive_review_obligations test_host intake bundle draft

abbrev nothing : ReviewObligations
nothing =
    build_obligations [] [] (coverage_of [] [] [])
      (record { records = []; diagnostics = []; complete = false }) []

abbrev value_of : Py ReviewObligations → ReviewObligations
value_of (ok r) = r
value_of (raise e) = nothing

obligations_derived :
    derive_review_obligations test_host intake bundle draft ≡ ok (value_of obligations)
unfolding obligations derive_review_obligations build_obligations coverage_of is_blocking
    review_effects review_units ReviewNodes.structure_nodes action_loop action_map hint_claims
    requested_claims mandatory_claims record_for review_unit rules_of unit_reports
    derive_action_claims policy policy_for ReviewNodes.normalize_nodes ReviewNodes.review_nodes
    ReviewNodes.review_node ReviewNodes.same_node py_eq derive_action_effects effect_inputs
    effects_loop record_of effect_record build_record record_reports forbidden_conflicts
    conflicts_with class_effect class_permission class_change class_diagnostics replacements_of
    structure_effect structure_diagnostics tree_change text_at permission_granted any_matches
    permission_matches permissions structure_nodes tree_of nodes_loop approved_classes
    reviewed_by_id normalize_action normalize_known unknown_top build_ir contract_for
    normalized_parameters parameter_loop parameter_step append_field class_checks normalize_value
    canonical hidden_decisions sort_texts distinct casefold strip show ends_with insert_field
    asks_decision offers_options is_open_text contains sort_by insert_by invalid_record
obligations_derived = refl

derive_review_obligations_iff_example :
    (actions : List ReviewAction) × (action_map draft ≡ ok actions)
    × (((value_of obligations).complete ≡ true)
        ↔ IsComplete test_host intake bundle draft actions (value_of obligations))
derive_review_obligations_iff_example =
    derive_review_obligations_iff test_host intake bundle draft (value_of obligations)
      obligations_derived

derive_review_obligations-HasClaims_example :
    (actions : List ReviewAction) × (action_map draft ≡ ok actions)
    × (map (λ (u : ReviewUnit). u.node_id) (value_of obligations).units
        ≡ ids_of (value_of obligations).required_architect_nodes)
    × All
        (HasClaims (value_of obligations).action_effects.records actions (reviewed_nodes draft))
        (value_of obligations).units
derive_review_obligations-HasClaims_example =
    derive_review_obligations-HasClaims test_host intake bundle draft (value_of obligations)
      obligations_derived

abbrev requests : NodeMap
requests = ("n2", fields_of (("requested_claims", texts_of ("geometry" ∷ "QA" ∷ [])) ∷ [])) ∷ []

requests_read :
    requested_claims (fields_of (("requested_claims", texts_of ("geometry" ∷ "QA" ∷ [])) ∷ []))
    ≡ ok ("geometry" ∷ "QA" ∷ [])
unfolding requested_claims policy_for
requests_read = refl

review_unit-ok_example : (u : ReviewUnit) × (review_unit test_host [] [] requests "n2" ≡ ok u)
review_unit-ok_example =
    review_unit-ok test_host [] [] requests "n2" ("geometry" ∷ "QA" ∷ []) requests_read

complete_draft : (value_of obligations).complete ≡ true
unfolding obligations derive_review_obligations build_obligations coverage_of is_blocking
    review_effects review_units ReviewNodes.structure_nodes action_loop action_map hint_claims
    requested_claims mandatory_claims record_for review_unit rules_of unit_reports
    derive_action_claims policy policy_for ReviewNodes.normalize_nodes ReviewNodes.review_nodes
    ReviewNodes.review_node ReviewNodes.same_node py_eq derive_action_effects effect_inputs
    effects_loop record_of effect_record build_record record_reports forbidden_conflicts
    conflicts_with class_effect class_permission class_change class_diagnostics replacements_of
    structure_effect structure_diagnostics tree_change text_at permission_granted any_matches
    permission_matches permissions structure_nodes tree_of nodes_loop approved_classes
    reviewed_by_id normalize_action normalize_known unknown_top build_ir contract_for
    normalized_parameters parameter_loop parameter_step append_field class_checks normalize_value
    canonical hidden_decisions sort_texts distinct casefold strip show ends_with insert_field
    asks_decision offers_options is_open_text contains sort_by insert_by invalid_record
complete_draft = refl
