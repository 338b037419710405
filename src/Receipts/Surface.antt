-- ===== src/Receipts/Surface.antt =====
-- validator/kernel_decision_receipts.py: the receipt that is rendered, and the diagnostics of one
-- surface and of a document.
use ev4_constructability_eng.Base.{
  String, ◌<>◌, Bool, false, not, ◌&&◌, ◌||◌, List, [], ◌∷◌, ◌++◌, any, str_in, ◌==◌, if◌then◌else◌,
}
use ev4_constructability_eng.Base.Text.{contains, strip}
use ev4_constructability_eng.Json.{Json, str, obj, Fields, is_null, is_true, value_at}
use ev4_constructability_eng.Json.Build.{dict_of}
use ev4_constructability_eng.Rules.Document.{texts, when}
use ev4_constructability_eng.Receipts.Trace.{has_complete_machine_trace}

abbrev pub success_receipt_text : String
success_receipt_text =
    "✅ \u{62a}\u{635}\u{645}\u{6cc}\u{645} \u{628}\u{647} decision card \u{6a9}\u{631}\u{646}\u{644} \u{648}\u{635}\u{644} \u{627}\u{633}\u{62a}\u{61b} CE \u{641}\u{642}\u{637} "
    <> "constructability \u{622}\u{646} \u{631}\u{627} \u{628}\u{631}\u{631}\u{633}\u{6cc} \u{6a9}\u{631}\u{62f}\u{647} \u{648} lineage \u{62a}\u{635}\u{645}\u{6cc}\u{645} \u{62d}\u{641}\u{638} \u{634}\u{62f}\u{647} \u{627}\u{633}\u{62a}."

abbrev pub warning_receipt_text : String
warning_receipt_text =
    "⚠\u{fe0f} \u{627}\u{6cc}\u{646} \u{622}\u{6cc}\u{62a}\u{645} \u{647}\u{646}\u{648}\u{632} \u{631}\u{633}\u{6cc}\u{62f} \u{645}\u{639}\u{62a}\u{628}\u{631} \u{6a9}\u{631}\u{646}\u{644} \u{646}\u{62f}\u{627}\u{631}\u{62f}\u{61b} CE \u{646}\u{645}\u{6cc}\u{200c}\u{62a}\u{648}\u{627}\u{646}\u{62f} \u{628}\u{62f}\u{648}\u{646} "
    <> "machine-readable trace \u{6a9}\u{627}\u{645}\u{644} \u{622}\u{646} \u{631}\u{627} \u{642}\u{627}\u{628}\u{644}\u{200c}\u{639}\u{628}\u{648}\u{631} \u{627}\u{639}\u{644}\u{627}\u{645} \u{6a9}\u{646}\u{62f}."

abbrev pub success_status_aliases : List String
success_status_aliases =
    "success" ∷ "valid" ∷ "passed" ∷ "accepted" ∷ "kernel_trace_connected" ∷ "trace_connected" ∷ []

abbrev pub ce_pass_status_aliases : List String
ce_pass_status_aliases =
    "accepted" ∷ "builder_ready" ∷ "constructability_pass" ∷ "executable_ready" ∷ "passed" ∷ []

pub record ReceiptDiagnostic : Type 0 where
  pub code : String
  pub path : String
  pub message : String

-- `render_ce_kernel_decision_receipt`
unfoldable pub render_ce_kernel_decision_receipt : Json → Json
render_ce_kernel_decision_receipt surface = dict_of (
    if has_complete_machine_trace surface
    then ("visible_status_marker", str "✅")
      ∷ ("status", str "kernel_trace_connected")
      ∷ ("message", str success_receipt_text)
      ∷ ("source", str "machine_readable_decision_trace")
      ∷ []
    else ("visible_status_marker", str "⚠\u{fe0f}")
      ∷ ("status", str "insufficient_evidence")
      ∷ ("message", str warning_receipt_text)
      ∷ ("source", str "insufficient_machine_readable_decision_trace")
      ∷ [])

-- `" ".join(…)`
unfoldable pub join_spaces : List String → String
join_spaces [] = ""
join_spaces (s ∷ []) = s
join_spaces (s ∷ t ∷ ts) = s <> (" " <> join_spaces (t ∷ ts))

-- `_receipt_text`
unfoldable pub receipt_text : Json → String
receipt_text (str s) = s
receipt_text (obj receipt) = join_spaces (
    texts (
      value_at "visible_status_marker" receipt
      ∷ value_at "status" receipt
      ∷ value_at "message" receipt
      ∷ value_at "statement" receipt
      ∷ []))
receipt_text _ = ""

abbrev stripped : Json → String
stripped (str s) = strip s
stripped _ = ""

-- `_receipt_status`
unfoldable pub receipt_status : Json → String
receipt_status (obj receipt) = stripped (value_at "status" receipt)
receipt_status _ = ""

-- `_is_success_receipt`
unfoldable pub is_success_receipt : Json → Bool
is_success_receipt receipt =
    str_in (receipt_status receipt) success_status_aliases
    || (contains (receipt_text receipt) "✅" || contains (receipt_text receipt) success_receipt_text)

-- `_is_warning_receipt`
unfoldable pub is_warning_receipt : Json → Bool
is_warning_receipt receipt =
    (receipt_status receipt == "insufficient_evidence")
    || (contains (receipt_text receipt) "⚠\u{fe0f}"
        || contains (receipt_text receipt) warning_receipt_text)

abbrev is_pass_status : Json → Bool
is_pass_status (str s) = str_in (strip s) ce_pass_status_aliases
is_pass_status _ = false

-- `_surface_claims_ce_pass`
unfoldable pub surface_claims_ce_pass : Fields → Bool
surface_claims_ce_pass surface =
    any is_pass_status (
      value_at "status" surface
      ∷ value_at "constructability_status" surface
      ∷ value_at "builder_package_status" surface
      ∷ [])
    || is_true (value_at "builder_package_emitted" surface)

abbrev pub diagnostic : String → String → String → ReceiptDiagnostic
diagnostic code path message = record { code = code; path = path; message = message }

-- `validate_receipt_surface`
unfoldable pub validate_receipt_surface : Json → String → List ReceiptDiagnostic
validate_receipt_surface (obj surface) path =
    let receipt = value_at "kernel_decision_receipt" surface in
    let complete_trace = has_complete_machine_trace (obj surface) in
    when (not (is_null receipt) && (is_success_receipt receipt && not complete_trace)) (
      diagnostic "CE_RECEIPT_GREEN_WITHOUT_MACHINE_TRACE" (path <> ".kernel_decision_receipt")
        "Success receipt requires a complete machine-readable Kernel decision trace.")
    ++ (when (not (is_null receipt) && (not complete_trace && not (is_warning_receipt receipt))) (
          diagnostic "CE_RECEIPT_WARNING_REQUIRED" (path <> ".kernel_decision_receipt")
            "Incomplete or missing trace must render the insufficient-evidence warning.")
        ++ when (surface_claims_ce_pass surface && not complete_trace) (
            diagnostic "CE_RECEIPT_CE_PASS_WITHOUT_TRACE" path
              "CE constructability pass or Builder-ready wording requires a complete trace."))
validate_receipt_surface _ path = []
