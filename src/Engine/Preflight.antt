-- ===== src/Engine/Preflight.antt =====
-- validator/engine.py: the checks before the rules, of the mode and of the reference paradigm.
use ev4_constructability_eng.Base.{
  String, Bool, false, not, ◌&&◌, ◌||◌, Option, none, some, List, [], ◌∷◌, ◌++◌, is_empty, ◌==◌,
  if◌then◌else◌,
}
use ev4_constructability_eng.Base.Python.{Py, ok, ◌>>=◌}
use ev4_constructability_eng.Json.{
  Json, obj, Fields, dict_or_empty, get, is_arr, is_obj, is_str, or_else, truthy, value_at,
}
use ev4_constructability_eng.Rules.Document.{ConstructabilityViolation, rule, when}
use ev4_constructability_eng.Rules.Nodes.{flag}

-- `_mode_preflight_violations`
unfoldable pub mode_preflight_violations : Fields → String → Py (List ConstructabilityViolation)
mode_preflight_violations document mode = do
  let review = or_else (value_at "constructability_review" document) (obj document)
  if mode == "report"
      then (do
        s ← get "constructability_status" review
        ok (
            when (is_str "executable_ready" s) (
              rule "R21_REPORT_MODE_MUST_BE_NON_EXECUTABLE" "blocked"
                "report mode validates non-executable reviews only; status must not be executable_ready."
                "constructability_review.constructability_status")))
      else ok []

-- `document.get('builder_executable_package')`, and its fields where it is a dict
abbrev pub package_value : Fields → Json
package_value document = value_at "builder_executable_package" document

abbrev pub package_fields : Fields → Fields
package_fields document = dict_or_empty (package_value document)

-- `_visual_parity_requested`
unfoldable pub visual_parity_requested : Fields → Bool
visual_parity_requested document =
    flag "visual_parity_build" document
    || (flag "builder_ready" document
        || (is_obj (package_value document)
            && flag "visual_parity_build" (package_fields document)))

-- `_package_requires_reference_carriers`
unfoldable pub package_requires_reference_carriers : Fields → Bool
package_requires_reference_carriers document =
    is_obj (package_value document) && visual_parity_requested document

-- `v if isinstance(v, dict) else None`
abbrev pub dict_or_none : Json → Option Fields
dict_or_none (obj fs) = some fs
dict_or_none _ = none

abbrev pub carriers_of : Fields → Option Fields × Option Fields
carriers_of source = (
  dict_or_none (value_at "reference_paradigm_lock" source),
  dict_or_none (value_at "paradigm_to_structure_map" source),
)

-- `_reference_carriers`
unfoldable pub reference_carriers : Fields → Option Fields × Option Fields
reference_carriers document =
    carriers_of
      (if package_requires_reference_carriers document then package_fields document else document)

abbrev pub is_locked : Option Fields → Bool
is_locked none = false
is_locked (some lock) = flag "paradigm_locked" lock

-- `_package_carrier_violations`
unfoldable pub package_carrier_violations : Fields → List ConstructabilityViolation
package_carrier_violations document =
    if not (package_requires_reference_carriers document)
    then []
    else when
        (not
          (is_locked (dict_or_none (value_at "reference_paradigm_lock" (package_fields document)))))
        (rule "R35_REFERENCE_PARADIGM_LOCK_MUST_BE_CARRIED_IN_PACKAGE" "blocked"
          "visual-parity Builder package must carry locked reference_paradigm_lock inside builder_executable_package."
          "builder_executable_package.reference_paradigm_lock")
      ++ when (not (is_obj (value_at "paradigm_to_structure_map" (package_fields document)))) (
          rule "R36_REFERENCE_PARADIGM_STRUCTURE_MAP_MUST_BE_CARRIED_IN_PACKAGE" "blocked"
            "visual-parity Builder package must carry paradigm_to_structure_map inside builder_executable_package."
            "builder_executable_package.paradigm_to_structure_map")

-- The check of the structure map, the last one.
unfoldable pub structure_map_violations : Option Fields → List ConstructabilityViolation
structure_map_violations none =
    rule "R31_REFERENCE_PARADIGM_STRUCTURE_MAP_REQUIRED" "blocked"
      "visual-parity Builder-ready output requires paradigm_to_structure_map."
      "paradigm_to_structure_map"
    ∷ []
structure_map_violations (some structure_map) =
    let requirements = value_at "first_batch_requirements" structure_map in
    when (not (is_arr requirements) || not (truthy requirements)) (
      rule "R32_REFERENCE_PARADIGM_FIRST_BATCH_REQUIREMENTS_REQUIRED" "blocked"
        "visual-parity Builder-ready output requires first_batch_requirements."
        "paradigm_to_structure_map.first_batch_requirements")

abbrev pub paradigm_of : Option Fields → Json
paradigm_of none = Json.null
paradigm_of (some lock) = value_at "layout_paradigm" lock

-- The checks of the carriers, once they are where they must be.
unfoldable pub carried_violations : Option Fields → Option Fields → List ConstructabilityViolation
carried_violations lock structure_map =
    if not (is_locked lock)
    then rule "R29_REFERENCE_PARADIGM_LOCK_REQUIRED" "blocked"
        "visual-parity Builder-ready output requires locked reference_paradigm_lock."
        "reference_paradigm_lock"
      ∷ []
    else when (is_str "unknown" (paradigm_of lock)) (
        rule "R30_REFERENCE_PARADIGM_UNKNOWN_BLOCKS_BUILDER_READY" "blocked"
          "layout_paradigm unknown blocks Builder-ready visual-parity output."
          "reference_paradigm_lock.layout_paradigm")
      ++ structure_map_violations structure_map

-- `_reference_paradigm_preflight_violations`
unfoldable pub reference_paradigm_preflight_violations : Fields → List ConstructabilityViolation
reference_paradigm_preflight_violations document =
    if not (visual_parity_requested document)
    then []
    else if not (is_empty (package_carrier_violations document))
    then package_carrier_violations document
    else carried_violations (reference_carriers document).0 (reference_carriers document).1
