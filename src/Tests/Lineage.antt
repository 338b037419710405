-- ===== src/Tests/Lineage.antt =====
-- The lineage of a concrete intake and output.
use ev4_constructability_eng.Base.{◌≡◌, refl, String, List, [], ◌∷◌, map}
use ev4_constructability_eng.Base.Text.{show, strip}
use ev4_constructability_eng.Base.Python.{ok}
use ev4_constructability_eng.Json.{Fields, Json, py_eq, str}
use ev4_constructability_eng.Json.Build.{dict_of, fields_of, list_of, texts_of}
use ev4_constructability_eng.Receipts.Trace.{is_nonempty_string}
use ev4_constructability_eng.Lineage.Entries.{
  entries_from, entries_of, lineage_entries, state_diagnostics, validate_lineage_item,
}
use ev4_constructability_eng.Lineage.Sequence.{
  entry_diagnostics, output_by_key, preservation_diagnostics, validate_sequence,
}
use ev4_constructability_eng.Lineage.SequenceLaws.{SequenceIsPreserved, validate_sequence_sound}
use ev4_constructability_eng.Tests.Data.{test_host}

abbrev entry : String → Json
entry card = dict_of (
    ("decision_family", str "layout")
    ∷ ("decision_card_ref", str card)
    ∷ ("selected_option", str "grid")
    ∷ ("rejected_options", list_of [])
    ∷ ("evidence_refs", texts_of ("e1" ∷ []))
    ∷ ("evidence_state", str "observed")
    ∷ ("consumer_stage", str "ce")
    ∷ [])

abbrev container : List String → Json
container cards = dict_of (("decision_lineage", list_of (map entry cards)) ∷ [])

abbrev sequence_document : Fields
sequence_document = fields_of (
    ("ce_intake", container ("card-1" ∷ []))
    ∷ ("ce_output", container ("card-2" ∷ "card-1" ∷ []))
    ∷ [])

sequence_silent : validate_sequence test_host sequence_document ≡ ok []
unfolding validate_sequence lineage_entries entries_of entries_from validate_lineage_item
    state_diagnostics is_nonempty_string strip show preservation_diagnostics entry_diagnostics
    output_by_key py_eq
sequence_silent = refl

validate_sequence_sound_example : SequenceIsPreserved test_host sequence_document
validate_sequence_sound_example =
    validate_sequence_sound test_host sequence_document sequence_silent
