-- ===== src/Paradigm/Lock.antt =====
-- validator/reference_paradigm_lock.py: the rules on a lock and its structure map.
use ev4_constructability_eng.Base.{
  String, ◌<>◌, Bool, false, not, ◌&&◌, List, [], ◌∷◌, ◌++◌, is_empty, keep, map, str_in,
  if◌then◌else◌,
}
use ev4_constructability_eng.Json.{Json, str, obj, Fields, is_obj, is_str, value_at}
use ev4_constructability_eng.Json.Host.{Host}
use ev4_constructability_eng.Rules.Document.{when}
use ev4_constructability_eng.Rules.Nodes.{flag}
use ev4_constructability_eng.Engine.Preflight.{visual_parity_requested}
use ev4_constructability_eng.Paradigm.Regions.{grid_decomposition_rule_errors, has_items, has_text}

abbrev pub valid_layouts : List String
valid_layouts =
    "center-anchored-symmetric" ∷ "vertical-list" ∷ "grid" ∷ "split-hero" ∷ "radial-diagram"
    ∷ "unknown" ∷ []

-- The fields of a lock that are only asked to hold a text.
abbrev pub text_fields : List String
text_fields =
    "primary_anchor" ∷ "distribution_model" ∷ "repeated_unit_form" ∷ "connector_model"
    ∷ "spatial_symmetry" ∷ []

unfoldable pub identity_errors : Fields → List String
identity_errors lock =
    when (not (is_str "ev4-reference-paradigm-lock@1.0.0" (value_at "schema" lock)))
      "schema must be ev4-reference-paradigm-lock@1.0.0"
    ++ (when (not (has_text (value_at "source_reference_id" lock)))
          "source_reference_id is required"
        ++ (when (not (is_str "constructability_engineer" (value_at "extracted_by" lock)))
              "extracted_by must equal constructability_engineer"
            ++ when (not (flag "paradigm_locked" lock)) "paradigm_locked must be true"))

abbrev pub is_valid_layout : Json → Bool
is_valid_layout (str s) = str_in s valid_layouts
is_valid_layout _ = false

unfoldable pub layout_errors : Fields → Bool → List String
layout_errors lock builder_ready =
    let layout = value_at "layout_paradigm" lock in
    (if not (has_text layout)
      then "layout_paradigm is required" ∷ []
      else when (not (is_valid_layout layout)) "layout_paradigm is not recognized")
    ++ when (builder_ready && is_str "unknown" layout)
        "layout_paradigm cannot be unknown for builder-ready output"

unfoldable pub text_errors : Fields → List String
text_errors lock =
    map (λ key. key <> " is required")
      (keep (λ key. not (has_text (value_at key lock))) text_fields)

unfoldable pub signature_errors : Fields → List String
signature_errors lock =
    when (not (has_items (value_at "completion_signature" lock)))
      "completion_signature must be a non-empty array"

unfoldable pub map_errors : Fields → List String
map_errors structure_map =
    when (not (is_obj (value_at "primary_anchor" structure_map)))
      "paradigm_to_structure_map.primary_anchor is required"
    ++ (when (not (has_items (value_at "regions" structure_map)))
          "paradigm_to_structure_map.regions must be non-empty"
        ++ (when (not (is_obj (value_at "repeated_units" structure_map)))
              "paradigm_to_structure_map.repeated_units is required"
            ++ (when (not (is_obj (value_at "connector_layer" structure_map)))
                  "paradigm_to_structure_map.connector_layer is required"
                ++ when (not (has_items (value_at "first_batch_requirements" structure_map)))
                    "first_batch_requirements are required for visual-parity builds")))

-- The errors of a lock that is there, before those of the map.
unfoldable pub lock_errors : Fields → Bool → List String
lock_errors lock builder_ready =
    identity_errors lock
    ++ (layout_errors lock builder_ready ++ (text_errors lock ++ signature_errors lock))

pub record LockValidation : Type 0 where
  pub passed : Bool
  pub schema_errors : List String
  pub rule_errors : List String

module _ (host : Host) where
  unfoldable pub structure_errors : Fields → Json → Bool → List String
  structure_errors lock (obj structure_map) builder_ready =
      map_errors structure_map
      ++ grid_decomposition_rule_errors host lock (obj structure_map) builder_ready
  structure_errors lock _ builder_ready = "paradigm_to_structure_map is required" ∷ []

  unfoldable pub locked_errors : Json → Json → Bool → List String
  locked_errors (obj lock) structure_map builder_ready =
      lock_errors lock builder_ready ++ structure_errors lock structure_map builder_ready
  locked_errors _ structure_map builder_ready = "reference_paradigm_lock is required" ∷ []

  -- `_rule_errors`; `_builder_ready_requested` has the body of the engine's
  -- `_visual_parity_requested`.
  unfoldable pub rule_errors : Fields → List String
  rule_errors document =
      locked_errors (value_at "reference_paradigm_lock" document)
        (value_at "paradigm_to_structure_map" document) (visual_parity_requested document)

  -- `validate_reference_paradigm_lock`, over the errors of the third-party schema validator
  unfoldable pub validate_reference_paradigm_lock : List String → Fields → LockValidation
  validate_reference_paradigm_lock schema_errors document = record {
    passed = is_empty schema_errors && is_empty (rule_errors document);
    schema_errors = schema_errors;
    rule_errors = rule_errors document;
  }
