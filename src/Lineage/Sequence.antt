-- ===== src/Lineage/Sequence.antt =====
-- scripts/validate-ce-decision-lineage-sequence.py: `validate_sequence`.
use ev4_constructability_eng.Base.{
  String, ◌<>◌, Bool, not, ◌&&◌, Option, none, some, List, [], ◌∷◌, ◌++◌, is_empty, keep, map, ◌==◌,
  if◌then◌else◌,
}
use ev4_constructability_eng.Base.Text.{show}
use ev4_constructability_eng.Base.Python.{Py, ok, ◌>>=◌}
use ev4_constructability_eng.Json.{
  str, Fields, dict_or_empty, from_default, is_obj, lookup, py_eq, value_at,
}
use ev4_constructability_eng.Json.Host.{Host}
use ev4_constructability_eng.Rules.Document.{when}
use ev4_constructability_eng.Lineage.Entries.{
  Entry, LineageDiagnostic, lineage_diagnostic, lineage_entries, required_lineage_fields,
}

module _ (host : Host) where
  open host use {py_str}

  -- `_lineage_key`
  abbrev pub lineage_key : Fields → String × String
  lineage_key entry = (
    py_str (from_default (lookup "decision_family" entry) (str "")),
    py_str (from_default (lookup "decision_card_ref" entry) (str "")),
  )

  abbrev pub same_key : Fields → Fields → Bool
  same_key a b =
      ((lineage_key a).0 == (lineage_key b).0) && ((lineage_key a).1 == (lineage_key b).1)

  -- `output_by_key.get(key)`: of the entries with one key the last is kept.
  unfoldable pub output_by_key : Fields → List Entry → Option Entry
  output_by_key upstream [] = none
  output_by_key upstream (e ∷ es) = elim (output_by_key upstream es) [
    | some later ↦ some later
    | none ↦ if same_key e.1 upstream then some e else none
  ]

  -- The fields of an entry that its output does not keep.
  abbrev pub replaced_fields : Fields → Fields → List String
  replaced_fields upstream downstream =
      keep (λ name. not (py_eq (value_at name downstream) (value_at name upstream)))
        required_lineage_fields

  -- One round of the loop over the intake, for what is found in the output.
  unfoldable pub entry_diagnostics : Entry → Option Entry → List LineageDiagnostic
  entry_diagnostics (index, upstream) none =
      lineage_diagnostic "CE_LINEAGE_DROPPED" ("$.ce_intake.decision_lineage[" <> show index <> "]")
        "CE output dropped an upstream decision lineage entry."
      ∷ []
  entry_diagnostics (index, upstream) (some (output_index, downstream)) =
      map
        (λ name.
          lineage_diagnostic "CE_LINEAGE_REPLACED"
            ("$.ce_output.decision_lineage[" <> show output_index <> "]." <> name)
            "CE output must preserve upstream decision lineage fields exactly; attach CE proof separately.")
        (replaced_fields upstream downstream)

  unfoldable pub preservation_diagnostics : List Entry → List Entry → List LineageDiagnostic
  preservation_diagnostics outputs [] = []
  preservation_diagnostics outputs (e ∷ es) =
      entry_diagnostics e (output_by_key e.1 outputs) ++ preservation_diagnostics outputs es

  -- The two containers must be objects.
  abbrev pub container_diagnostics : Fields → List LineageDiagnostic
  container_diagnostics document =
      when (not (is_obj (value_at "ce_intake" document))) (
        lineage_diagnostic "CE_LINEAGE_REQUIRED" "$.ce_intake"
          "sequence fixture must contain a CE intake object.")
      ++ when (not (is_obj (value_at "ce_output" document))) (
          lineage_diagnostic "CE_LINEAGE_REQUIRED" "$.ce_output"
            "sequence fixture must contain a CE output object.")

  -- `validate_sequence`
  unfoldable pub validate_sequence : Fields → Py (List LineageDiagnostic)
  validate_sequence document = do
    intake ← lineage_entries (dict_or_empty (value_at "ce_intake" document)) "$.ce_intake"
    output ← lineage_entries (dict_or_empty (value_at "ce_output" document)) "$.ce_output"
    ok (
        container_diagnostics document
        ++ (intake.1
            ++ (output.1
                ++ (if is_empty intake.1 && is_empty output.1
                    then preservation_diagnostics output.0 intake.0
                    else []))))
