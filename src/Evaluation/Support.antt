-- ===== src/Evaluation/Support.antt =====
-- validator/claim_evaluation_support.py: `_draft_node`, `_semantics` and `_base_evaluation`.
use ev4_constructability_eng.Base.{
  String, Bool, not, ◌&&◌, Option, none, some, List, [], ◌∷◌, if◌then◌else◌, str_in,
}
use ev4_constructability_eng.Base.Sorting.{sort_texts}
use ev4_constructability_eng.Base.Python.{Py, ok, raise, ◌>>=◌, key_error}
use ev4_constructability_eng.Json.{Json, obj, Fields, end, dict_or_empty, is_str, value_at}
use ev4_constructability_eng.Registry.Claims.{
  ClaimPolicy, LifecyclePhase, is_post_builder, policy_for,
}
use ev4_constructability_eng.Effects.Inputs.{inner, list_or_default}

-- The first dict with an identity, and the empty one if there is none.
abbrev pub node_in : String → List Json → Fields
node_in subject_ref [] = end
node_in subject_ref (obj fs ∷ rest) =
    let later = node_in subject_ref rest in
    if is_str subject_ref (value_at "node_id" fs) then fs else later
node_in subject_ref (_ ∷ rest) = node_in subject_ref rest

-- `_draft_node`
unfoldable pub draft_node : Fields → String → Py Fields
draft_node review_draft subject_ref = do
  items ← list_or_default (value_at "reviewed_nodes" review_draft)
  ok (node_in subject_ref items)

-- `_semantics`
unfoldable pub semantics : Fields → String → Fields
semantics node claim_id = dict_or_empty (inner claim_id (value_at "claim_semantics" node))

-- What an evaluation adds to the policy of its claim: a diagnostic is its code.
pub record Findings : Type 0 where
  pub status : String
  pub facts : Fields
  pub evidence_refs : List String
  pub limitations : List String
  pub diagnostics : List String
  pub downstream_obligation : Option Fields
  pub evidence_records : List Fields

pub record Evaluation : Type 0 where
  pub claim_id : String
  pub subject_ref : String
  pub lifecycle_phase : LifecyclePhase
  pub status : String
  pub blocking : Bool
  pub authority_owner : String
  pub applicable_rule : String
  pub facts : Fields
  pub evidence_refs : List String
  pub limitations : List String
  pub diagnostics : List String
  pub downstream_obligation : Option Fields
  pub evidence_records : List Fields
  pub policy : ClaimPolicy

-- `CLAIM_POLICIES[claim_id]`
abbrev pub policy_at : Option ClaimPolicy → Py ClaimPolicy
policy_at none = raise key_error
policy_at (some p) = ok p

abbrev pub settled_statuses : List String
settled_statuses = "satisfied" ∷ "not_applicable" ∷ []

-- `_base_evaluation`
unfoldable pub base_evaluation : String → String → Findings → Py Evaluation
base_evaluation claim_id subject_ref findings = do
  policy ← policy_at (policy_for claim_id)
  ok (record {
    claim_id = claim_id;
    subject_ref = subject_ref;
    lifecycle_phase = policy.lifecycle_phase;
    status = findings.status;
    blocking =
        not (is_post_builder policy.lifecycle_phase)
        && not (str_in findings.status settled_statuses);
    authority_owner = policy.authority_owner;
    applicable_rule = policy.applicable_rule;
    facts = findings.facts;
    evidence_refs = sort_texts findings.evidence_refs;
    limitations = findings.limitations;
    diagnostics = findings.diagnostics;
    downstream_obligation = findings.downstream_obligation;
    evidence_records = findings.evidence_records;
    policy = policy;
  })
