-- ===== src/Receipts/Trace.antt =====
-- validator/kernel_decision_receipts.py: the machine-readable trace of a Kernel decision.
use ev4_constructability_eng.Base.{
  String, Bool, false, not, ◌&&◌, List, [], ◌∷◌, ◌++◌, all, any, is_empty, keep, str_in, ◌==◌,
  if◌then◌else◌,
}
use ev4_constructability_eng.Base.Text.{strip}
use ev4_constructability_eng.Json.{
  Json, str, arr, obj, Fields, elems, has_key, is_arr, list_or_empty, value_at, truthy,
}

abbrev pub required_trace_fields : List String
required_trace_fields =
    "decision_family" ∷ "decision_card_ref" ∷ "selected_option" ∷ "rejected_options"
    ∷ "evidence_refs" ∷ "evidence_state" ∷ "consumer_stage" ∷ []

abbrev pub valid_trace_evidence_states : List String
valid_trace_evidence_states =
    "observed" ∷ "exported" ∷ "validated" ∷ "resolved" ∷ "derived" ∷ "proposed" ∷ "unverified"
    ∷ "not_applicable" ∷ []

-- The fields that hold a text.
abbrev pub text_trace_fields : List String
text_trace_fields =
    "decision_family" ∷ "decision_card_ref" ∷ "selected_option" ∷ "consumer_stage" ∷ []

-- `_is_nonempty_string`
unfoldable pub is_nonempty_string : Json → Bool
is_nonempty_string (str s) = not (strip s == "")
is_nonempty_string _ = false

abbrev pub refs_valid : Json → Bool
refs_valid (arr vs) = truthy (arr vs) && all is_nonempty_string (elems vs)
refs_valid _ = false

abbrev pub state_valid : Json → Bool
state_valid (str s) = is_nonempty_string (str s) && str_in s valid_trace_evidence_states
state_valid _ = false

abbrev pub only_if : Bool → String → List String
only_if b name = if b then name ∷ [] else []

-- The list `missing` as it is collected, with a field as often as a test appends it.
unfoldable pub collected_missing : Fields → List String
collected_missing trace =
    keep (λ name. not (has_key name trace)) required_trace_fields
    ++ (keep (λ name. has_key name trace && not (is_nonempty_string (value_at name trace)))
          text_trace_fields
        ++ (only_if
              (has_key "rejected_options" trace && not (is_arr (value_at "rejected_options" trace)))
              "rejected_options"
            ++ (only_if
                  (has_key "evidence_refs" trace
                    && not (refs_valid (value_at "evidence_refs" trace)))
                  "evidence_refs"
                ++ only_if
                    (has_key "evidence_state" trace
                      && not (state_valid (value_at "evidence_state" trace)))
                    "evidence_state")))

-- `missing_machine_trace_fields`: the set of the collected fields in the order of the required
-- ones, of which all of them are.
unfoldable pub missing_machine_trace_fields : Json → List String
missing_machine_trace_fields (obj trace) =
    keep (λ name. str_in name (collected_missing trace)) required_trace_fields
missing_machine_trace_fields _ = required_trace_fields

-- `has_complete_machine_trace`
unfoldable pub has_complete_machine_trace : Json → Bool
has_complete_machine_trace (obj surface) =
    any (λ entry. is_empty (missing_machine_trace_fields entry))
      (list_or_empty (value_at "decision_lineage" surface))
has_complete_machine_trace _ = false
