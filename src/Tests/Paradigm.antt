-- ===== src/Tests/Paradigm.antt =====
-- The lock of a grid with a left and a right region.
use ev4_constructability_eng.Base.{◌≡◌, refl, String, true, false, List, [], ◌∷◌}
use ev4_constructability_eng.Base.Int.{pos}
use ev4_constructability_eng.Base.Text.{has_word, search_word, strip, word_here}
use ev4_constructability_eng.Json.{Fields, Json, bool, int, str}
use ev4_constructability_eng.Json.Build.{dict_of, fields_of, list_of, texts_of}
use ev4_constructability_eng.Rules.Nodes.{flag}
use ev4_constructability_eng.Engine.Preflight.{visual_parity_requested}
use ev4_constructability_eng.Paradigm.Regions.{
  grid_decomposition_rule_errors, has_direction_term, has_items, has_text, is_decomposed,
  region_has_direction, region_has_valid_decomposition_payload,
}
use ev4_constructability_eng.Paradigm.Lock.{
  identity_errors, layout_errors, lock_errors, locked_errors, map_errors, rule_errors,
  signature_errors, structure_errors, text_errors, validate_reference_paradigm_lock,
}
use ev4_constructability_eng.Paradigm.LockLaws.{
  ParadigmIsLocked, validate_reference_paradigm_lock_iff,
}
use ev4_constructability_eng.Tests.Data.{test_host}

word_found : has_word "Column-LEFT 2" "left" ≡ true
unfolding has_word search_word word_here
word_found = refl

word_inside : has_word "leftover cleft" "left" ≡ false
unfolding has_word search_word word_here
word_inside = refl

abbrev region : String → Json
region id =
    dict_of
      (("id", str id) ∷ ("expected_count", int (pos 2)) ∷ ("nodes", texts_of ("n1" ∷ [])) ∷ [])

abbrev grid_document : Fields
grid_document = fields_of (
    ("builder_ready", bool true)
    ∷ (
      "reference_paradigm_lock",
      dict_of (
          ("schema", str "ev4-reference-paradigm-lock@1.0.0")
          ∷ ("source_reference_id", str "ref-1")
          ∷ ("extracted_by", str "constructability_engineer")
          ∷ ("paradigm_locked", bool true)
          ∷ ("layout_paradigm", str "grid")
          ∷ ("primary_anchor", str "hero")
          ∷ ("distribution_model", str "left and right")
          ∷ ("repeated_unit_form", str "card")
          ∷ ("connector_model", str "line")
          ∷ ("spatial_symmetry", str "mirror")
          ∷ ("completion_signature", texts_of ("s" ∷ []))
          ∷ []),
    )
    ∷ (
      "paradigm_to_structure_map",
      dict_of (
          ("primary_anchor", dict_of [])
          ∷ ("regions", list_of (region "left-column" ∷ region "right-column" ∷ []))
          ∷ ("repeated_units", dict_of [])
          ∷ ("connector_layer", dict_of [])
          ∷ ("first_batch_requirements", texts_of ("wrapper" ∷ []))
          ∷ []),
    )
    ∷ [])

grid_passes : (validate_reference_paradigm_lock test_host [] grid_document).passed ≡ true
unfolding validate_reference_paradigm_lock rule_errors locked_errors structure_errors lock_errors
    identity_errors layout_errors text_errors signature_errors map_errors
    grid_decomposition_rule_errors is_decomposed region_has_direction has_direction_term
    region_has_valid_decomposition_payload has_items has_text has_word search_word word_here strip
    flag visual_parity_requested
grid_passes = refl

abbrev no_schema_errors : List String
no_schema_errors = []

validate_reference_paradigm_lock_iff_example :
    (no_schema_errors ≡ []) × ParadigmIsLocked test_host grid_document
validate_reference_paradigm_lock_iff_example =
    (validate_reference_paradigm_lock_iff test_host no_schema_errors grid_document).0 grid_passes
