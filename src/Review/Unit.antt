-- ===== src/Review/Unit.antt =====
-- validator/review_obligations.py: the body of the loop over the Architect's nodes in
-- `derive_review_obligations`.
use ev4_constructability_eng.Base.{
  String, Bool, false, not, ◌&&◌, ◌||◌, Option, none, some, List, [], ◌∷◌, ◌++◌, all, is_empty, map,
  if◌then◌else◌, ◌==◌,
}
use ev4_constructability_eng.Base.Sorting.{distinct, sort_texts}
use ev4_constructability_eng.Base.Python.{Py, ok, raise, ◌>>=◌, key_error}
use ev4_constructability_eng.Json.{str, Fields, is_true, or_else, value_at}
use ev4_constructability_eng.Json.Host.{Host}
use ev4_constructability_eng.Registry.Claims.{ClaimPolicy, derive_action_claims, policy_for}
use ev4_constructability_eng.Effects.ClassEffect.{outside, sorted_set}
use ev4_constructability_eng.Effects.Inputs.{NodeMap}
use ev4_constructability_eng.Effects.Records.{Diagnostic, EffectRecord, code_of}
use ev4_constructability_eng.Review.Inputs.{ReviewAction, actions_at, hint_claims, requested_claims}
use ev4_constructability_eng.Review.Nodes.{fields_at}

-- The diagnostics of a review, a constructor for each code, and those of the actions' effects.
pub data ReviewDiagnostic : Type 0 where
  required_node_missing orphan_draft_node duplicate_review_unit unknown_action_target
        node_has_no_builder_action empty_claim_set_unproven :
      (node_id : String) → ReviewDiagnostic
  unknown_action_type : (node_id action_type : String) → ReviewDiagnostic
  draft_omitted_mandatory_claims : (node_id : String) (claims : List String) → ReviewDiagnostic
  of_effects : Diagnostic → ReviewDiagnostic
  derivation_failed : (message : String) → ReviewDiagnostic

-- `diagnostic["code"]`
abbrev pub review_code : ReviewDiagnostic → String
review_code (required_node_missing n) = "CE_OBLIGATION_REQUIRED_NODE_MISSING"
review_code (orphan_draft_node n) = "CE_OBLIGATION_ORPHAN_DRAFT_NODE"
review_code (duplicate_review_unit n) = "CE_OBLIGATION_DUPLICATE_REVIEW_UNIT"
review_code (unknown_action_target n) = "CE_OBLIGATION_UNKNOWN_ACTION_TARGET"
review_code (node_has_no_builder_action n) = "CE_OBLIGATION_NODE_HAS_NO_BUILDER_ACTION"
review_code (empty_claim_set_unproven n) = "CE_OBLIGATION_EMPTY_CLAIM_SET_UNPROVEN"
review_code (unknown_action_type n t) = "CE_OBLIGATION_UNKNOWN_ACTION_TYPE"
review_code (draft_omitted_mandatory_claims n cs) = "CE_OBLIGATION_DRAFT_OMITTED_MANDATORY_CLAIMS"
review_code (of_effects d) = code_of d.finding
review_code (derivation_failed message) = "CE_ACTION_EFFECT_DERIVATION_FAILED"

-- `effects_by_action.get(action_id)`: the last record with the identity.
unfoldable pub record_for : String → List EffectRecord → Option EffectRecord
record_for action_id [] = none
record_for action_id (r ∷ rs) = elim (record_for action_id rs) [
  | none ↦ if r.action_id == action_id then some r else none
  | some found ↦ some found
]

abbrev pub is_changing : Option EffectRecord → Bool
is_changing none = false
is_changing (some r) = r.changes_class_assignment || r.changes_structure

abbrev pub changes_page : List EffectRecord → ReviewAction → Bool
changes_page records action = is_changing (record_for action.action_id records)

-- The claims that one action makes mandatory, none if its type is unknown.
abbrev pub claims_with : Bool → Option (List String) → List String
claims_with changing none = []
claims_with changing (some derived) = if changing then "geometry" ∷ derived else derived

abbrev pub action_claims : List EffectRecord → ReviewAction → List String
action_claims records action =
    claims_with (changes_page records action) (derive_action_claims action.action_type)

abbrev pub claims_of_actions : List EffectRecord → List ReviewAction → List String
claims_of_actions records [] = []
claims_of_actions records (a ∷ actions) =
    action_claims records a ++ claims_of_actions records actions

abbrev pub unknown_report : String → String → Option (List String) → List ReviewDiagnostic
unknown_report node_id action_type none = unknown_action_type node_id action_type ∷ []
unknown_report node_id action_type (some derived) = []

abbrev pub unknown_types : String → List ReviewAction → List ReviewDiagnostic
unknown_types node_id [] = []
unknown_types node_id (a ∷ actions) =
    unknown_report node_id a.action_type (derive_action_claims a.action_type)
    ++ unknown_types node_id actions

-- `derive_action_claims(…) == ()`
abbrev pub is_no_claim : Option (List String) → Bool
is_no_claim none = false
is_no_claim (some claims) = is_empty claims

abbrev pub claims_nothing : List EffectRecord → ReviewAction → Bool
claims_nothing records action =
    is_no_claim (derive_action_claims action.action_type) && not (changes_page records action)

abbrev pub explicit_no_claim : List EffectRecord → List ReviewAction → Bool
explicit_no_claim records actions = not (is_empty actions) && all (claims_nothing records) actions

-- What the review must show for one node: the entries of the dicts by node, and whether the node
-- is among those without a claim.
pub record ReviewUnit : Type 0 where
  pub node_id : String
  pub required_claims : List String
  pub requested_claims : List String
  pub applicable_rules : List String
  pub action_types : List String
  pub without_claim : Bool
  pub diagnostics : List ReviewDiagnostic

-- The claims of the actions, of the hints and of the flags of the draft's node.
unfoldable pub mandatory_claims :
    List EffectRecord → List ReviewAction → String → Fields → List String
mandatory_claims records actions proposed_action draft_node =
    claims_of_actions records actions
    ++ (hint_claims proposed_action
        ++ (if is_true (value_at "requires_class_change" draft_node)
              || is_true (value_at "requires_structure_change" draft_node)
            then "geometry" ∷ []
            else []))

-- The diagnostic on the actions and claims of a node, and the one on claims left out.
abbrev pub coverage_reports : String → Bool → Bool → Bool → List ReviewDiagnostic
coverage_reports node_id no_actions no_claims no_claim_shown =
    if no_actions
    then node_has_no_builder_action node_id ∷ []
    else if no_claims
    then (if no_claim_shown then [] else empty_claim_set_unproven node_id ∷ [])
    else []

abbrev pub omitted_reports : String → List String → List ReviewDiagnostic
omitted_reports node_id [] = []
omitted_reports node_id (c ∷ cs) = draft_omitted_mandatory_claims node_id (sorted_set (c ∷ cs)) ∷ []

unfoldable pub unit_reports :
    String
    → List EffectRecord
    → List ReviewAction
    → List String
    → List String
    → List ReviewDiagnostic
unit_reports node_id records actions mandatory requested =
    unknown_types node_id actions
    ++ (coverage_reports node_id (is_empty actions) (is_empty (mandatory ++ requested))
          (explicit_no_claim records actions)
        ++ omitted_reports node_id (outside requested mandatory))

-- `claim_policy_registry[claim]["applicable_rule"]`, with the default registry
abbrev pub rule_at : Option ClaimPolicy → Py String
rule_at none = raise key_error
rule_at (some p) = ok p.applicable_rule

unfoldable pub rules_of : List String → Py (List String)
rules_of [] = ok []
rules_of (claim ∷ claims) = do
  rule ← rule_at (policy_for claim)
  more ← rules_of claims
  ok (rule ∷ more)

module _ (host : Host) where
  open host use {py_str}

  abbrev pub proposed_action_of : Fields → String
  proposed_action_of draft_node = py_str (or_else (value_at "proposed_action" draft_node) (str ""))

  -- The body of the loop, for the actions and the draft's node of an identity.
  unfoldable pub review_unit :
      List EffectRecord → List ReviewAction → NodeMap → String → Py ReviewUnit
  review_unit records all_actions reviewed node_id = do
    let actions = actions_at node_id all_actions
    let draft_node = fields_at node_id reviewed
    let mandatory = mandatory_claims records actions (proposed_action_of draft_node) draft_node
    requested ← requested_claims draft_node
    rules ← rules_of (distinct (mandatory ++ requested))
    ok (record {
      node_id = node_id;
      required_claims = sorted_set (mandatory ++ requested);
      requested_claims = sorted_set requested;
      applicable_rules = sort_texts rules;
      action_types = sort_texts (map (λ (a : ReviewAction). a.action_type) actions);
      without_claim = is_empty (mandatory ++ requested) && explicit_no_claim records actions;
      diagnostics = unit_reports node_id records actions mandatory requested;
    })
