-- ===== src/Rules/Nodes.antt =====
-- validator/rules.py: the rules on one reviewed node, the body of the node loop of
-- `evaluate_document`.
use ev4_constructability_eng.Base.{
  ℕ, suc, String, ◌<>◌, Bool, not, ◌&&◌, ◌||◌, List, [], ◌∷◌, ◌++◌, if◌then◌else◌,
}
use ev4_constructability_eng.Base.Text.{show}
use ev4_constructability_eng.Base.Python.{Py, ok, ◌>>=◌}
use ev4_constructability_eng.Json.{
  Json, str, obj, end, Fields, as_dict, get, in_set, is_str, is_true, lookup, or_else, value_at,
  from_default,
}
use ev4_constructability_eng.Rules.Document.{
  ConstructabilityViolation, collect, extend, rule, when, has_object, responsive_allowed,
  blocking_node_statuses,
}

-- `_is_true(interrogation.get(key))` and `_has_object(interrogation.get(key))`
unfoldable pub flag : String → Fields → Bool
flag key facts = is_true (value_at key facts)

unfoldable pub proof_object : String → Fields → Bool
proof_object key facts = has_object (value_at key facts)

abbrev pub node_location : ℕ → String
node_location index = "reviewed_nodes[" <> show index <> "]"

-- R03, R24, R04, R05, R25
unfoldable pub construction_violations : Bool → Fields → String → List ConstructabilityViolation
construction_violations claims facts location =
    when (claims && (flag "geometry_required" facts && not (flag "geometry_proven" facts))) (
      rule "R03_GEOMETRY_MUST_BE_PROVEN" "needs_user_evidence"
        "Geometry-dependent action lacks proven anchors, coordinates, or strategy." location)
    ++ (when (claims && (flag "geometry_proven" facts && not (proof_object "geometry_proof" facts)))
          (rule "R24_GEOMETRY_PROOF_OBJECT_REQUIRED" "blocked"
            "geometry_proven true requires geometry_proof object." location)
        ++ (when
              (claims
                && (flag "asset_required" facts
                    && not (
                        flag "asset_source_present" facts
                        || flag "placeholder_policy_present" facts)))
              (rule "R04_ASSET_SOURCE_OR_PLACEHOLDER" "needs_user_evidence"
                "Asset action requires an asset source or explicit placeholder policy." location)
            ++ (when
                  (claims
                    && (flag "overlay_strategy_required" facts
                        && not (flag "overlay_strategy_proven" facts)))
                  (rule "R05_OVERLAY_STRATEGY_MUST_BE_PROVEN" "blocked"
                    "Overlay action requires containment, positioning, and z-index strategy."
                    location)
                ++ when
                    (claims
                      && (flag "overlay_strategy_proven" facts
                          && not (proof_object "overlay_strategy" facts)))
                    (rule "R25_OVERLAY_STRATEGY_OBJECT_REQUIRED" "blocked"
                      "overlay_strategy_proven true requires overlay_strategy object." location))))

-- R06
unfoldable pub responsive_violations : Bool → Fields → String → Py (List ConstructabilityViolation)
responsive_violations claims facts location =
    if claims && flag "action_targets_responsive" facts
    then (do
      allowed ←
          in_set responsive_allowed
            (from_default (lookup "responsive_behavior" facts) (str "unknown"))
      ok (
          when (not allowed) (
            rule "R06_RESPONSIVE_ACTION_REQUIRES_STRATEGY_OR_BLOCK" "needs_user_evidence"
              "Responsive action requires evidence-backed strategy or explicit block." location)))
    else ok []

-- R07, R08, R26, R09
unfoldable pub approval_violations : Bool → Fields → String → List ConstructabilityViolation
approval_violations claims facts location =
    when (claims && (flag "interaction_implied" facts && not (flag "interaction_approved" facts))) (
      rule "R07_INTERACTION_REQUIRES_APPROVAL" "needs_architect_amendment"
        "Interaction is implied but not approved by architecture." location)
    ++ (when
          (claims
            && (flag "dynamic_loop_implied" facts && not (flag "dynamic_loop_approved" facts)))
          (rule "R08_DYNAMIC_LOOP_REQUIRES_APPROVAL" "needs_architect_amendment"
            "Dynamic Loop or data binding is implied but not approved." location)
        ++ (when
              (claims
                && (flag "dynamic_loop_approved" facts
                    && not (proof_object "dynamic_loop_binding_map" facts)))
              (rule "R26_DYNAMIC_LOOP_BINDING_MAP_REQUIRED" "blocked"
                "dynamic_loop_approved true requires dynamic_loop_binding_map object." location)
            ++ when
                (claims
                  && ((flag "requires_structure_change" facts || flag "requires_class_change" facts)
                      && not (flag "architect_decomposition_permission" facts)))
                (rule "R09_STRUCTURE_OR_CLASS_CHANGE_REQUIRES_PERMISSION"
                  "needs_architect_amendment"
                  "Structure or approved class names would change without Architect permission."
                  location)))

-- R10, R27, R16
unfoldable pub evidence_violations : Bool → Fields → String → List ConstructabilityViolation
evidence_violations claims facts location =
    when
      (claims
        && (flag "exact_ui_control_path_used" facts
            && not (flag "ui_control_evidence_present" facts)))
      (rule "R10_UI_CONTROL_PATH_REQUIRES_EVIDENCE" "needs_user_evidence"
        "Exact Elementor UI path requires current UI or official-doc evidence." location)
    ++ (when
          (claims
            && (flag "ui_control_evidence_present" facts
                && not (proof_object "ui_control_evidence" facts)))
          (rule "R27_UI_CONTROL_EVIDENCE_OBJECT_REQUIRED" "blocked"
            "ui_control_evidence_present true requires ui_control_evidence object." location)
        ++ when
            (claims
              && (flag "accessibility_claimed" facts && not (flag "accessibility_evidenced" facts)))
            (rule "R16_ACCESSIBILITY_CLAIM_REQUIRES_EVIDENCE" "blocked"
              "Accessibility claims require supporting evidence." location))

-- The text of a status that a set of texts holds.
abbrev status_text : Json → String
status_text (str s) = s
status_text _ = ""

-- R14
unfoldable pub blocked_node_violations : Bool → Json → String → Py (List ConstructabilityViolation)
blocked_node_violations executable node_status location =
    if executable
    then (do
      blocking ← in_set blocking_node_statuses node_status
      ok (
          when blocking (
            rule "R14_BLOCKED_NODE_BLOCKS_EXECUTABLE_READY" (status_text node_status)
              "A blocked/evidence/amendment node prevents executable_ready." location)))
    else ok []

-- One round of the node loop. `interrogation.get` is called on every path, so the exception of a
-- value that is no dict is raised at the start.
unfoldable pub node_violations : Bool → ℕ → Json → Py (List ConstructabilityViolation)
node_violations executable index node = do
  node_status ← get "node_status" node
  interrogation ← get "interrogation_result" node
  facts ← as_dict (or_else interrogation (obj end))
  let claims = executable || is_str "executable_ready" node_status
  let location = node_location index
  collect (
      ok (construction_violations claims facts location)
      ∷ responsive_violations claims facts location
      ∷ ok (approval_violations claims facts location)
      ∷ ok (evidence_violations claims facts location)
      ∷ blocked_node_violations executable node_status location
      ∷ [])

unfoldable pub nodes_violations : Bool → ℕ → List Json → Py (List ConstructabilityViolation)
nodes_violations executable index [] = ok []
nodes_violations executable index (node ∷ rest) =
    extend (node_violations executable index node) (nodes_violations executable (suc index) rest)
