-- ===== src/Lineage/Entries.antt =====
-- scripts/validate-ce-decision-lineage-sequence.py: the lineage entries of an intake or an output.
use ev4_constructability_eng.Base.{
  ℕ, suc, String, ◌<>◌, not, ◌&&◌, List, [], ◌∷◌, ◌++◌, keep, map, if◌then◌else◌,
}
use ev4_constructability_eng.Base.Text.{show}
use ev4_constructability_eng.Base.Python.{Py, ok, ◌>>=◌}
use ev4_constructability_eng.Json.{
  Json, arr, obj, item, Fields, has_key, in_set, is_arr, value_at, elems,
}
use ev4_constructability_eng.Rules.Document.{when}
use ev4_constructability_eng.Receipts.Trace.{is_nonempty_string, refs_valid, text_trace_fields}

abbrev pub required_lineage_fields : List String
required_lineage_fields =
    "decision_family" ∷ "decision_card_ref" ∷ "selected_option" ∷ "rejected_options"
    ∷ "evidence_refs" ∷ "evidence_state" ∷ "consumer_stage" ∷ []

abbrev pub valid_evidence_states : List String
valid_evidence_states =
    "observed" ∷ "validated" ∷ "resolved" ∷ "derived" ∷ "proposed" ∷ "unverified"
    ∷ "insufficient_evidence" ∷ []

pub record LineageDiagnostic : Type 0 where
  pub code : String
  pub path : String
  pub message : String

abbrev pub lineage_diagnostic : String → String → String → LineageDiagnostic
lineage_diagnostic code path message = record { code = code; path = path; message = message }

abbrev pub incomplete_lineage : String → String → LineageDiagnostic
incomplete_lineage path message = lineage_diagnostic "CE_LINEAGE_INCOMPLETE" path message

-- The check of the evidence state; a list or a dict cannot be looked up in the set of states.
unfoldable pub state_diagnostics : Fields → String → Py (List LineageDiagnostic)
state_diagnostics entry path =
    if has_key "evidence_state" entry
    then (do
      valid ← in_set valid_evidence_states (value_at "evidence_state" entry)
      ok (
          when (not valid) (
            incomplete_lineage (path <> ".evidence_state")
              "evidence_state is not an allowed explicit evidence state.")))
    else ok []

-- `_validate_lineage_item`
unfoldable pub validate_lineage_item : Json → String → Py (List LineageDiagnostic)
validate_lineage_item (obj entry) path = do
  state ← state_diagnostics entry path
  ok (
      map
        (λ name.
          incomplete_lineage (path <> "." <> name) "required decision lineage field is missing.")
        (keep (λ name. not (has_key name entry)) required_lineage_fields)
      ++ (map
            (λ name.
              incomplete_lineage (path <> "." <> name)
                "decision lineage field must be a non-empty string.")
            (keep (λ name. has_key name entry && not (is_nonempty_string (value_at name entry)))
              text_trace_fields)
          ++ (when
                (has_key "rejected_options" entry
                  && not (is_arr (value_at "rejected_options" entry)))
                (incomplete_lineage (path <> ".rejected_options")
                  "rejected_options must be an array, even when empty.")
              ++ (when
                    (has_key "evidence_refs" entry
                      && not (refs_valid (value_at "evidence_refs" entry)))
                    (incomplete_lineage (path <> ".evidence_refs")
                      "evidence_refs must contain at least one non-empty evidence reference.")
                  ++ state))))
validate_lineage_item _ path =
    ok (incomplete_lineage path "decision lineage entries must be objects." ∷ [])

-- An entry that is an object, with its index.
abbrev pub Entry : Type 0
Entry = ℕ × Fields

abbrev entry_of : ℕ → Json → List Entry
entry_of index (obj fs) = (index, fs) ∷ []
entry_of index _ = []

-- The loop over the lineage: the entries and the diagnostics.
unfoldable pub entries_from : String → ℕ → List Json → Py (List Entry × List LineageDiagnostic)
entries_from path index [] = ok ([], [])
entries_from path index (v ∷ vs) = do
  here ← validate_lineage_item v (path <> ".decision_lineage[" <> show index <> "]")
  later ← entries_from path (suc index) vs
  ok (entry_of index v ++ later.0, here ++ later.1)

-- `_lineage_entries`, over the value of the lineage
unfoldable pub entries_of : String → Json → Py (List Entry × List LineageDiagnostic)
unfolding entries_from
entries_of path (arr (item v vs)) = entries_from path 0 (v ∷ elems vs)
entries_of path _ = ok (
  [],
  lineage_diagnostic "CE_LINEAGE_REQUIRED" (path <> ".decision_lineage")
        "CE intake/output must carry non-empty upstream Kernel decision lineage."
      ∷ [],
)

unfoldable pub lineage_entries : Fields → String → Py (List Entry × List LineageDiagnostic)
lineage_entries container path = entries_of path (value_at "decision_lineage" container)
