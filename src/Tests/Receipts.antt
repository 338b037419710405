-- ===== src/Tests/Receipts.antt =====
-- Receipts of concrete surfaces.
use ev4_constructability_eng.Base.{◌≡◌, ◌↔◌, refl, false, [], ◌∷◌, map}
use ev4_constructability_eng.Base.Text.{contains, show, strip}
use ev4_constructability_eng.Json.{Fields, obj, str}
use ev4_constructability_eng.Json.Build.{dict_of, fields_of, list_of, texts_of}
use ev4_constructability_eng.Receipts.Trace.{
  collected_missing, has_complete_machine_trace, is_nonempty_string, missing_machine_trace_fields,
}
use ev4_constructability_eng.Receipts.Surface.{
  is_success_receipt, is_warning_receipt, join_spaces, receipt_status, receipt_text,
  surface_claims_ce_pass, validate_receipt_surface,
}
use ev4_constructability_eng.Receipts.Walk.{
  should_validate, validate_receipt_document, walk_receipt_surfaces,
}
use ev4_constructability_eng.Receipts.TraceLaws.{IsCompleteTrace, missing_machine_trace_fields_iff}
use ev4_constructability_eng.Receipts.SurfaceLaws.{
  IsHonest, rendered-IsHonest, validate_receipt_surface_iff, with_receipt,
}
use ev4_constructability_eng.Receipts.WalkLaws.{
  SurfaceIn, itself, this_child, under_key, validate_receipt_document_iff,
}

abbrev whole_trace : Fields
whole_trace = fields_of (
    ("decision_family", str "layout")
    ∷ ("decision_card_ref", str "card-7")
    ∷ ("selected_option", str "grid")
    ∷ ("rejected_options", list_of [])
    ∷ ("evidence_refs", texts_of ("e1" ∷ []))
    ∷ ("evidence_state", str "validated")
    ∷ ("consumer_stage", str "ce")
    ∷ [])

abbrev traced_surface : Fields
traced_surface = fields_of (
    ("constructability_status", str "executable_ready")
    ∷ ("decision_lineage", list_of (obj whole_trace ∷ []))
    ∷ ("kernel_decision_receipt", dict_of (("status", str "kernel_trace_connected") ∷ []))
    ∷ [])

abbrev green_surface : Fields
green_surface = fields_of (("kernel_decision_receipt", str "✅ connected") ∷ [])

abbrev handed_document : Fields
handed_document = fields_of (("handoff", obj traced_surface) ∷ ("notes", texts_of ("n" ∷ [])) ∷ [])

nothing_missing : missing_machine_trace_fields (obj whole_trace) ≡ []
unfolding missing_machine_trace_fields collected_missing is_nonempty_string strip
nothing_missing = refl

missing_machine_trace_fields_iff_example : IsCompleteTrace whole_trace
missing_machine_trace_fields_iff_example =
    (missing_machine_trace_fields_iff whole_trace).0 nothing_missing

surface_silent : validate_receipt_surface (obj traced_surface) "$.handoff" ≡ []
unfolding validate_receipt_surface has_complete_machine_trace missing_machine_trace_fields
    collected_missing is_nonempty_string strip is_success_receipt is_warning_receipt receipt_status
    receipt_text join_spaces contains surface_claims_ce_pass
surface_silent = refl

validate_receipt_surface_iff_example : IsHonest traced_surface
validate_receipt_surface_iff_example =
    (validate_receipt_surface_iff traced_surface "$.handoff").0 surface_silent

-- A green receipt without a trace has two diagnostics: it is green, and it does not warn.
green_reported :
    map (λ d. d.code) (validate_receipt_surface (obj green_surface) "$")
    ≡ "CE_RECEIPT_GREEN_WITHOUT_MACHINE_TRACE" ∷ "CE_RECEIPT_WARNING_REQUIRED" ∷ []
unfolding validate_receipt_surface has_complete_machine_trace is_success_receipt is_warning_receipt
    receipt_status receipt_text join_spaces contains surface_claims_ce_pass
green_reported = refl

rendered-IsHonest_example : IsHonest (with_receipt green_surface) ↔ (
    has_complete_machine_trace (obj green_surface) ≡ false
    → surface_claims_ce_pass green_surface ≡ false)
rendered-IsHonest_example = rendered-IsHonest green_surface

document_silent : validate_receipt_document (obj handed_document) ≡ []
unfolding validate_receipt_document walk_receipt_surfaces should_validate validate_receipt_surface
    has_complete_machine_trace missing_machine_trace_fields collected_missing is_nonempty_string
    strip is_success_receipt is_warning_receipt receipt_status receipt_text join_spaces contains
    surface_claims_ce_pass show
document_silent = refl

handed_inside : SurfaceIn (obj handed_document) false traced_surface
unfolding should_validate
handed_inside = under_key (this_child (itself refl))

validate_receipt_document_iff_example : IsHonest traced_surface
validate_receipt_document_iff_example =
    (validate_receipt_document_iff handed_document).0 document_silent traced_surface handed_inside
