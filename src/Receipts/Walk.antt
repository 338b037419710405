-- ===== src/Receipts/Walk.antt =====
-- validator/kernel_decision_receipts.py: the walk over the surfaces of a document.
use ev4_constructability_eng.Base.{
  ℕ, suc, String, ◌<>◌, Bool, false, ◌||◌, List, [], ◌∷◌, ◌++◌, str_in, ◌==◌, if◌then◌else◌,
}
use ev4_constructability_eng.Base.Text.{show}
use ev4_constructability_eng.Json.{Json, arr, obj, Items, nil, item, Fields, end, field, has_key}
use ev4_constructability_eng.Receipts.Surface.{
  ReceiptDiagnostic, diagnostic, surface_claims_ce_pass, validate_receipt_surface,
}

abbrev pub surface_keys : List String
surface_keys =
    "ce_intake" ∷ "ce_output" ∷ "constructability_report" ∷ "constructability_review"
    ∷ "repair_request" ∷ "repair_handoff" ∷ "handoff" ∷ "builder_handoff" ∷ []

-- `_child_path`, for a key and for an index
abbrev pub key_path : String → String → String
key_path path key = if path == "$" then "$." <> key else path <> "." <> key

abbrev pub index_path : String → ℕ → String
index_path path index = path <> "[" <> show index <> "]"

unfoldable pub should_validate : Bool → Fields → Bool
should_validate named_surface value =
    named_surface
    || (has_key "kernel_decision_receipt" value
        || (has_key "decision_lineage" value || surface_claims_ce_pass value))

abbrev pub own_diagnostics : Bool → Fields → String → List ReceiptDiagnostic
own_diagnostics named_surface value path =
    if should_validate named_surface value then validate_receipt_surface (obj value) path else []

-- `_walk_receipt_surfaces`
unfoldable mutual
  pub walk_receipt_surfaces : Json → String → Bool → List ReceiptDiagnostic
  walk_receipt_surfaces (obj fs) path named_surface =
      own_diagnostics named_surface fs path ++ walk_fields fs path
  walk_receipt_surfaces (arr vs) path named_surface = walk_items vs path 0
  walk_receipt_surfaces _ path named_surface = []

  pub walk_fields : Fields → String → List ReceiptDiagnostic
  walk_fields end path = []
  walk_fields (field key child fs) path =
      walk_receipt_surfaces child (key_path path key) (str_in key surface_keys)
      ++ walk_fields fs path

  pub walk_items : Items → String → ℕ → List ReceiptDiagnostic
  walk_items nil path index = []
  walk_items (item child vs) path index =
      walk_receipt_surfaces child (index_path path index) false ++ walk_items vs path (suc index)

-- `validate_receipt_document`
unfoldable pub validate_receipt_document : Json → List ReceiptDiagnostic
validate_receipt_document (obj fs) = walk_receipt_surfaces (obj fs) "$" false
validate_receipt_document _ =
    diagnostic "CE_RECEIPT_WARNING_REQUIRED" "$" "Receipt validation expects a JSON/YAML object."
    ∷ []
