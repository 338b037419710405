-- ===== src/Evaluation/Decision.antt =====
-- validator/claim_evaluators.py, `evaluate_architect_decision`.
use ev4_constructability_eng.Base.{
  String, Bool, not, ◌&&◌, ◌||◌, ◌==◌, none, [], ◌∷◌, any, if◌then◌else◌,
}
use ev4_constructability_eng.Base.Python.{Py, ok, ◌>>=◌, ◌>>◌, ensure, type_error}
use ev4_constructability_eng.Json.{
  Json, str, arr, obj, Fields, end, dict_or_empty, elems, from_default, get, get_or, is_arr,
  is_null, is_obj, is_str, lookup, py_eq, value_at,
}
use ev4_constructability_eng.Json.Build.{fields_of}
use ev4_constructability_eng.Json.Host.{Host}
use ev4_constructability_eng.Effects.Inputs.{inner}
use ev4_constructability_eng.Effects.Permissions.{approved_status}
use ev4_constructability_eng.Evaluation.Attributed.{with_evidence_id}
use ev4_constructability_eng.Evaluation.Support.{Evaluation, Findings, base_evaluation}

-- The last but one key of `_architect_decision_path`.
unfoldable pub decision_key : String → String
decision_key claim_id =
    if claim_id == "dynamic_loop_approval" then "dynamic_loop_intent" else "interaction_intent"

-- The decision that the path leads to.
abbrev pub decision_of : Fields → String → Json
decision_of intake claim_id =
    inner (decision_key claim_id) (value_at "architect_intent_preserved" intake)

-- The identity of the candidate that the intake selects.
abbrev pub candidate_of : Fields → Py Json
candidate_of intake =
    get_or "selected_architecture" (obj end) (obj intake) >>= get "selected_candidate_id"

-- `decision.get(key, decision.get(other)) if isinstance(decision, Mapping) else None`
abbrev pub either_of : String → String → Json → Json
either_of key other decision =
    from_default (lookup key (dict_or_empty decision)) (inner other decision)

abbrev pub is_hashable : Json → Bool
is_hashable v = not (is_arr v || is_obj v)

-- `v in {None, candidate}`
unfoldable pub candidate_matches : Json → Json → Py Bool
candidate_matches candidate v = do
  ensure (is_hashable candidate) type_error
  ensure (is_hashable v) type_error
  ok (is_null v || py_eq v candidate)

-- The subjects that a decision is for: all of them, those of a list, or one.
abbrev pub subject_matches : String → Json → Bool
subject_matches subject_ref (arr vs) = any (is_str subject_ref) (elems vs)
subject_matches subject_ref v = is_null v || is_str subject_ref v

abbrev pub undecided : Bool → Findings
undecided approved = record {
  status = "architect_decision_required";
  facts = end;
  evidence_refs = [];
  limitations =
      "Canonical Architect approval is absent or bound to another candidate or subject." ∷ [];
  diagnostics =
      (if approved
        then "CE_CLAIM_ARCHITECT_DECISION_BINDING_MISMATCH"
        else "CE_CLAIM_ARCHITECT_DECISION_MISSING")
      ∷ [];
  downstream_obligation = none;
  evidence_records = [];
}

module _ (host : Host) where
  open host use {sha256_json}

  abbrev pub decision_record : String → String → Json → Json → Fields → Fields
  decision_record claim_id subject_ref candidate current intake = fields_of (
      ("mode", str "VERIFIED_ARCHITECT_DECISION")
      ∷ ("claim_id", str claim_id)
      ∷ ("subject_ref", str subject_ref)
      ∷ ("selected_candidate_id", candidate)
      ∷ ("decision_value", current)
      ∷ ("source_digest", str (sha256_json (obj intake)))
      ∷ [])

  abbrev pub decided : Json → Json → Fields → Findings
  decided candidate current rec = record {
    status = "satisfied";
    facts = fields_of (("selected_candidate_id", candidate) ∷ ("decision_value", current) ∷ []);
    evidence_refs = sha256_json (obj rec) ∷ [];
    limitations = [];
    diagnostics = [];
    downstream_obligation = none;
    evidence_records = with_evidence_id host rec ∷ [];
  }

  abbrev pub choose_findings :
      (approved matching : Bool) (candidate current : Json) → Fields → Findings
  choose_findings approved matching candidate current rec =
      if approved && matching then decided candidate current rec else undecided approved

  -- `evaluate_architect_decision`
  unfoldable pub evaluate_architect_decision : String → String → Fields → Py Evaluation
  evaluate_architect_decision claim_id subject_ref intake = do
    let decision = decision_of intake claim_id
    let current = inner "status" decision
    candidate ← candidate_of intake
    candidate_fits ←
        candidate_matches candidate (either_of "selected_candidate_id" "candidate_id" decision)
    let subject_fits = subject_matches subject_ref (either_of "subject_refs" "node_ids" decision)
    approved ← approved_status current
    base_evaluation claim_id subject_ref (
        choose_findings approved (candidate_fits && subject_fits) candidate current
          (decision_record claim_id subject_ref candidate current intake))
