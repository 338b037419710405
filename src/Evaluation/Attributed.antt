-- ===== src/Evaluation/Attributed.antt =====
-- validator/claim_evaluation_support.py, `_semantic_missing` and `_attributed_evaluation`, and
-- validator/claim_evaluators.py, `_evaluate_attributed`.
use ev4_constructability_eng.Base.{
  String, ◌<>◌, not, ◌&&◌, ◌==◌, none, List, [], ◌∷◌, ◌++◌, is_empty, keep, map, if◌then◌else◌,
}
use ev4_constructability_eng.Base.Text.{strip}
use ev4_constructability_eng.Base.Python.{Py, ok, ◌>>=◌}
use ev4_constructability_eng.Json.{Json, str, obj, Fields, end, has_key, or_else, value_at}
use ev4_constructability_eng.Json.Build.{fields_of, list_of, texts_of}
use ev4_constructability_eng.Json.Host.{Host}
use ev4_constructability_eng.Registry.Claims.{policy_for}
use ev4_constructability_eng.Obligations.Normalize.{is_blank, set_field}
use ev4_constructability_eng.Effects.Inputs.{list_or_default}
use ev4_constructability_eng.Review.Inputs.{join_commas}
use ev4_constructability_eng.Evaluation.Support.{
  Evaluation, Findings, base_evaluation, draft_node, policy_at, semantics,
}

-- `_semantic_missing`
unfoldable pub semantic_missing : String → Fields → Py (List String)
semantic_missing claim_id facts = do
  policy ← policy_at (policy_for claim_id)
  ok (keep (λ key. is_blank (value_at key facts)) policy.required_semantics)

-- What is wrong with a judgment: its missing semantics, rationale and premises.
unfoldable pub judgment_details : List String → String → List String → List String
judgment_details missing rationale assumptions =
    (if is_empty missing then [] else ("missing semantics: " <> join_commas missing) ∷ [])
    ++ ((if rationale == "" then "engineering rationale is missing" ∷ [] else [])
        ++ (if is_empty assumptions then "explicit premises are missing" ∷ [] else []))

abbrev pub incomplete_judgment : List String → Findings
incomplete_judgment details = record {
  status = "insufficient_evidence";
  facts = end;
  evidence_refs = [];
  limitations = details;
  diagnostics = "CE_CLAIM_ATTRIBUTED_JUDGMENT_INCOMPLETE" ∷ [];
  downstream_obligation = none;
  evidence_records = [];
}

module _ (host : Host) where
  open host use {py_str, sha256_json}

  -- `str(node.get("engineering_rationale") or "").strip()`
  abbrev pub rationale_of : Fields → String
  rationale_of node = strip (py_str (or_else (value_at "engineering_rationale" node) (str "")))

  -- The premises that are not printed as blanks.
  unfoldable pub assumptions_of : Fields → Py (List String)
  assumptions_of node = do
    items ← list_or_default (value_at "assumptions" node)
    ok (keep (λ s. not (strip s == "")) (map py_str items))

  -- The record of a complete judgment, in the order of the source.
  unfoldable pub judgment_record :
      String → String → Fields → List String → String → Fields → List String → Fields
  judgment_record claim_id subject_ref node assumptions rationale facts limits = fields_of (
      ("mode", str "ATTRIBUTED_ENGINEERING_JUDGMENT")
      ∷ ("claim_id", str claim_id)
      ∷ ("subject_ref", str subject_ref)
      ∷ (
        "reviewer_identity",
        str (
            py_str (or_else (value_at "reviewer_identity" node) (str "constructability_engineer"))),
      )
      ∷ ("premises", texts_of assumptions)
      ∷ ("derivation_method", str rationale)
      ∷ ("semantic_facts", obj facts)
      ∷ ("limitations", texts_of limits)
      ∷ [])

  -- `{**record, "evidence_id": evidence_id}`
  abbrev pub with_evidence_id : Fields → Fields
  with_evidence_id rec = set_field "evidence_id" (str (sha256_json (obj rec))) rec

  abbrev pub complete_judgment : Fields → List String → Fields → Findings
  complete_judgment facts limits rec = record {
    status = "satisfied";
    facts = facts;
    evidence_refs = sha256_json (obj rec) ∷ [];
    limitations = limits;
    diagnostics = [];
    downstream_obligation = none;
    evidence_records = with_evidence_id rec ∷ [];
  }

  -- What a judgment with nothing missing finds.
  unfoldable pub judge :
      String → String → Fields → Fields → List String → String → List String → Py Findings
  judge claim_id subject_ref node facts missing rationale assumptions =
      let complete : Py Findings = (do
        items ← list_or_default (value_at "limitations" node)
        ok (
            complete_judgment facts (map py_str items) (
              judgment_record claim_id subject_ref node assumptions rationale facts
                (map py_str items)))) in
      if is_empty missing && (not (rationale == "") && not (is_empty assumptions))
      then complete
      else ok (incomplete_judgment (judgment_details missing rationale assumptions))

  -- `_attributed_evaluation`
  unfoldable pub attributed_evaluation : String → String → Fields → Fields → Py Evaluation
  attributed_evaluation claim_id subject_ref node facts = do
    missing ← semantic_missing claim_id facts
    assumptions ← assumptions_of node
    findings ← judge claim_id subject_ref node facts missing (rationale_of node) assumptions
    base_evaluation claim_id subject_ref findings

  -- `d.setdefault(key, value)`
  abbrev pub set_default : String → Json → Fields → Fields
  set_default key value fs = if has_key key fs then fs else set_field key value fs

  -- The defaults of the placeholder policy, which reads the node before it knows the key is there.
  unfoldable pub defaulted_semantics : String → Fields → Fields → Py Fields
  defaulted_semantics claim_id node facts =
      let defaults : Py Fields = (do
        items ← list_or_default (value_at "assumptions" node)
        ok (
            set_default "derivation_method"
              (str (py_str (or_else (value_at "engineering_rationale" node) (str ""))))
              (set_default "premises" (list_of items) facts))) in
      if claim_id == "placeholder_policy" then defaults else ok facts

  -- `_evaluate_attributed`
  unfoldable pub evaluate_attributed : String → String → Fields → Py Evaluation
  evaluate_attributed claim_id subject_ref review_draft = do
    node ← draft_node review_draft subject_ref
    facts ← defaulted_semantics claim_id node (semantics node claim_id)
    attributed_evaluation claim_id subject_ref node facts
