-- ===== src/Tests/Data.antt =====
-- The documents and values of the tests.
use ev4_constructability_eng.Base.{refl, String, ◌<>◌, true, false, [], ◌∷◌}
use ev4_constructability_eng.Base.Int.{pos}
use ev4_constructability_eng.Json.{Json, bool, int, str, obj, Fields}
use ev4_constructability_eng.Json.Build.{dict_of, fields_of, list_of, texts_of}
use ev4_constructability_eng.Json.Host.{Host}
use ev4_constructability_eng.Rules.Document.{supported_schema}

-- `str` on texts, and one digest for everything.
abbrev text_of : Json → String
text_of (str s) = s
text_of _ = ""

abbrev pub digest : String
digest = "0123456789abcdef01234567"

abbrev pub test_host : Host
test_host = record {
  py_str = text_of;
  py_str-text = λ s. refl;
  sha256_json = λ v. digest <> "89abcdef";
}

abbrev pub proven_node : Json
proven_node = dict_of (
    ("node_status", str "executable_ready")
    ∷ (
      "interrogation_result",
      dict_of (
          ("geometry_required", bool true)
          ∷ ("geometry_proven", bool true)
          ∷ ("geometry_proof", dict_of (("anchor", str "top") ∷ []))
          ∷ ("action_targets_responsive", bool true)
          ∷ ("responsive_behavior", str "evidence_backed")
          ∷ []),
    )
    ∷ [])

abbrev pub unproven_node : Json
unproven_node = dict_of (
    ("node_status", str "executable_ready")
    ∷ ("interrogation_result", dict_of (("geometry_required", bool true) ∷ []))
    ∷ [])

abbrev pub decided_action : Json
decided_action =
    dict_of (
      ("requires_decision", bool false)
      ∷ ("parameters", dict_of (("layout", str "grid") ∷ []))
      ∷ [])

abbrev pub ready_review : Json
ready_review = dict_of (
    ("constructability_status", str "executable_ready")
    ∷ ("selected_candidate_id", str "c1")
    ∷ ("builder_decisions_required", int (pos 0))
    ∷ ("reviewed_nodes", list_of (proven_node ∷ []))
    ∷ [])

abbrev pub confirmation : Json
confirmation = dict_of (
    ("confirmation_id", str "k1")
    ∷ ("confirmed_action_ids", texts_of ("a1" ∷ []))
    ∷ ("expected_user_token", str "yes")
    ∷ [])

abbrev pub ready_package : Json
ready_package = dict_of (
    ("schema", str supported_schema)
    ∷ ("builder_package_status", str "executable_ready")
    ∷ ("selected_candidate_id", str "c1")
    ∷ ("approved_class_names", texts_of ("hero" ∷ "card" ∷ []))
    ∷ (
      "architect_contract",
      dict_of (
          ("selected_candidate_id", str "c1")
          ∷ ("approved_class_names", texts_of ("card" ∷ "hero" ∷ []))
          ∷ []),
    )
    ∷ ("first_safe_builder_batch", dict_of (("actions", list_of (decided_action ∷ [])) ∷ []))
    ∷ ("confirmation_request", confirmation)
    ∷ ("selected_candidate_locked", bool true)
    ∷ ("selected_candidate_id_unchanged", bool true)
    ∷ ("approved_class_names_unchanged", bool true)
    ∷ [])

abbrev pub ready_document : Json
ready_document =
    dict_of (
      ("constructability_review", ready_review)
      ∷ ("builder_executable_package", ready_package)
      ∷ [])

abbrev pub safe_assumption : Json
safe_assumption =
    dict_of (
      ("risk_level", str "low") ∷ ("reversible", bool true) ∷ ("visible_in_output", bool true) ∷ [])

abbrev pub undecided_parameters : Json
undecided_parameters = dict_of (("steps", list_of (dict_of (("gap", str " TBD ") ∷ []) ∷ [])) ∷ [])

abbrev pub honest_qa : Json
honest_qa = dict_of (
    (
      "qa_status",
      dict_of (
          ("production_ready", bool true)
          ∷ ("full_qa_evidence_present", bool true)
          ∷ ("qa_matrix", dict_of (("desktop", str "passed") ∷ []))
          ∷ []),
    )
    ∷ [])

-- Two proposals for the same node.
abbrev pub layout_action : String → Json → Fields
layout_action id parameters = fields_of (
    ("action_id", str id)
    ∷ ("action_type", str "configure_layout")
    ∷ ("target_node", str "n1")
    ∷ ("parameters", parameters)
    ∷ [])

abbrev pub grid_parameters : Json
grid_parameters = dict_of (("layout", str "grid") ∷ ("gap", str "8px") ∷ [])

abbrev pub open_parameters : Json
open_parameters =
    dict_of (("layout", str "grid") ∷ ("gap_options", texts_of ("8px" ∷ "16px" ∷ [])) ∷ [])

abbrev pub obligation : String → Fields
obligation subject = fields_of (
    ("obligation_id", str ("ce-runtime-obligation-" <> digest))
    ∷ ("claim_id", str "responsive_behavior")
    ∷ ("subject_ref", str subject)
    ∷ ("consumer_stage", str "runtime")
    ∷ ("required_runner", str "browser")
    ∷ ("target_identity", str "page")
    ∷ ("required_inputs", texts_of ("b" ∷ "a" ∷ "b" ∷ []))
    ∷ ("expected_assertions", texts_of ("fits" ∷ []))
    ∷ ("completion_criteria", str "all pass")
    ∷ ("blocking_boundary", str "final_project_gate")
    ∷ ("status", str "executed_pass")
    ∷ ("blocks_builder_handoff", bool true)
    ∷ [])

abbrev pub obligation_row : String → Json
obligation_row subject = dict_of (
    ("subject_ref", str subject)
    ∷ ("claim_id", str "responsive_behavior")
    ∷ ("downstream_obligation", obj (obligation subject))
    ∷ [])

abbrev pub static_row : Json
static_row = dict_of (("subject_ref", str "n0") ∷ ("claim_id", str "geometry") ∷ [])
