-- ===== src/Paradigm/Regions.antt =====
-- validator/reference_paradigm_lock.py: the decomposition of a grid into left and right regions.
use ev4_constructability_eng.Base.{
  String, ◌<>◌, Bool, false, not, ◌&&◌, ◌||◌, List, [], ◌∷◌, all, any, is_empty, keep, ◌==◌,
  if◌then◌else◌,
}
use ev4_constructability_eng.Base.Int.{pos, int_le}
use ev4_constructability_eng.Base.Text.{has_word, strip}
use ev4_constructability_eng.Json.{
  Json, bool, int, str, arr, obj, Fields, elems, from_default, is_str, list_or_empty, lookup,
  truthy, value_at,
}
use ev4_constructability_eng.Json.Host.{Host}

-- `_has_text` and `_has_items`
unfoldable pub has_text : Json → Bool
has_text (str s) = not (strip s == "")
has_text _ = false

unfoldable pub has_items : Json → Bool
has_items (arr vs) = truthy (arr vs)
has_items _ = false

-- `_has_direction_term`, for the two directions that have a pattern
unfoldable pub has_direction_term : Json → String → Bool
has_direction_term (str s) direction = has_word s direction
has_direction_term _ direction = false

-- `isinstance(v, int) and v > 0`: True is an integer.
abbrev pub is_positive : Json → Bool
is_positive (int n) = int_le (pos 1) n
is_positive (bool b) = b
is_positive _ = false

-- `_region_has_valid_decomposition_payload`
unfoldable pub region_has_valid_decomposition_payload : Json → Bool
region_has_valid_decomposition_payload (obj region) =
    is_positive (value_at "expected_count" region)
    && (has_items (value_at "nodes" region)
        && all has_text (list_or_empty (value_at "nodes" region)))
region_has_valid_decomposition_payload _ = false

abbrev pub grid_base : String
grid_base =
    "LAYOUT_PARADIGM_REQUIRES_DECOMPOSITION: $.reference_paradigm_lock.layout_paradigm "
    <> ("layout_paradigm=grid requires explicit left/right decomposition for Builder rendering; "
        <> ("expected=grid with left and right regions, positive expected_count, non-empty nodes, "
            <> ("and left/right distribution_model; "
                <> "contract=CE_TO_BUILDER_LAYOUT_COMPATIBILITY")))

module _ (host : Host) where
  open host use {py_str}

  -- The text that an f-string shows for a key, with "" for a key that is not there.
  abbrev shown : String → Fields → String
  shown key region = py_str (from_default (lookup key region) (str ""))

  -- `_region_has_direction`
  unfoldable pub region_has_direction : Json → String → Bool
  region_has_direction (obj region) direction =
      has_direction_term (str (shown "id" region <> (" " <> shown "distribution" region))) direction
  region_has_direction _ direction = false

  abbrev pub regions_of : String → List Json → List Json
  regions_of direction regions = keep (λ region. region_has_direction region direction) regions

  -- The checks on the regions, once the structure map and its regions have their types.
  unfoldable pub is_decomposed : Fields → List Json → Bool
  is_decomposed lock regions =
      (not (is_empty (regions_of "left" regions)) && not (is_empty (regions_of "right" regions)))
      && (any region_has_valid_decomposition_payload (regions_of "left" regions)
          && (any region_has_valid_decomposition_payload (regions_of "right" regions)
              && (has_direction_term (value_at "distribution_model" lock) "left"
                  && has_direction_term (value_at "distribution_model" lock) "right")))

  abbrev pub map_is_decomposed : Fields → Json → Bool
  map_is_decomposed lock (arr regions) = is_decomposed lock (elems regions)
  map_is_decomposed lock _ = false

  abbrev regions_value : Json → Json
  regions_value (obj structure_map) = value_at "regions" structure_map
  regions_value _ = Json.null

  -- `_grid_decomposition_rule_errors`
  unfoldable pub grid_decomposition_rule_errors : Fields → Json → Bool → List String
  grid_decomposition_rule_errors lock structure_map builder_ready =
      if not builder_ready || not (is_str "grid" (value_at "layout_paradigm" lock))
      then []
      else if map_is_decomposed lock (regions_value structure_map)
      then []
      else grid_base ∷ []
