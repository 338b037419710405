-- ===== src/Rules/NodeLaws.antt =====
-- What the node rules ask of a node, stated on its interrogation facts, and that the rules
-- report nothing exactly when it holds.
use ev4_constructability_eng.Base.{
  ◌≡◌, ◌↔◌, ◌⊎◌, ℕ, suc, String, true, false, List, [], ◌∷◌, All, arith,
}
use ev4_constructability_eng.Base.Python.{ok, >>=-eq-ok, ok-injective}
use ev4_constructability_eng.Json.{
  Json, str, obj, end, Fields, as_dict, from_default, get, in_set, lookup, or_else,
}
use ev4_constructability_eng.Rules.Document.{blocking_node_statuses, collect, responsive_allowed}
use ev4_constructability_eng.Rules.Nodes.{
  approval_violations, blocked_node_violations, construction_violations, evidence_violations, flag,
  node_location, node_violations, nodes_violations, proof_object, responsive_violations,
}
use ev4_constructability_eng.Rules.Parts.{collect-eq-nil, extend-eq-nil}

-- A flag that is true needs another one, or a proof object.
abbrev pub Needs : Fields → String → String → Type 0
Needs facts key other = flag key facts ≡ true → flag other facts ≡ true

abbrev pub NeedsObject : Fields → String → String → Type 0
NeedsObject facts key other = flag key facts ≡ true → proof_object other facts ≡ true

pub record IsBuildable (facts : Fields) : Type 0 where
  pub geometry : Needs facts "geometry_required" "geometry_proven"
  pub geometry_proof : NeedsObject facts "geometry_proven" "geometry_proof"
  pub asset :
      flag "asset_required" facts ≡ true
      → (flag "asset_source_present" facts ≡ true)
        ⊎ (flag "placeholder_policy_present" facts ≡ true)
  pub overlay : Needs facts "overlay_strategy_required" "overlay_strategy_proven"
  pub overlay_strategy : NeedsObject facts "overlay_strategy_proven" "overlay_strategy"

pub record IsApproved (facts : Fields) : Type 0 where
  pub interaction : Needs facts "interaction_implied" "interaction_approved"
  pub dynamic_loop : Needs facts "dynamic_loop_implied" "dynamic_loop_approved"
  pub binding_map : NeedsObject facts "dynamic_loop_approved" "dynamic_loop_binding_map"
  pub structure_change :
      Needs facts "requires_structure_change" "architect_decomposition_permission"
  pub class_change : Needs facts "requires_class_change" "architect_decomposition_permission"

pub record IsEvidenced (facts : Fields) : Type 0 where
  pub ui_control : Needs facts "exact_ui_control_path_used" "ui_control_evidence_present"
  pub ui_evidence : NeedsObject facts "ui_control_evidence_present" "ui_control_evidence"
  pub accessibility : Needs facts "accessibility_claimed" "accessibility_evidenced"

-- A responsive target names one of the allowed behaviours.
abbrev pub IsResponsive : Fields → Type 0
IsResponsive facts =
    flag "action_targets_responsive" facts ≡ true
    → in_set responsive_allowed (from_default (lookup "responsive_behavior" facts) (str "unknown"))
      ≡ ok true

pub construction_iff :
    (facts : Fields) (l : String) → (construction_violations true facts l ≡ []) ↔ IsBuildable facts
unfolding construction_violations
construction_iff facts l = (λ h. ground arith, λ b. ground arith)

pub approval_iff :
    (facts : Fields) (l : String) → (approval_violations true facts l ≡ []) ↔ IsApproved facts
unfolding approval_violations
approval_iff facts l = (λ h. ground arith, λ b. ground arith)

pub evidence_iff :
    (facts : Fields) (l : String) → (evidence_violations true facts l ≡ []) ↔ IsEvidenced facts
unfolding evidence_violations
evidence_iff facts l = (λ h. ground arith, λ b. ground arith)

IsResponsive-iff :
    (facts : Fields) (l : String)
    → (responsive_violations true facts l ≡ ok []) ↔ IsResponsive facts
unfolding responsive_violations
IsResponsive-iff facts l = (λ h. ground arith, λ b. ground arith)

blocked_iff :
    (s : Json) (l : String)
    → (blocked_node_violations true s l ≡ ok []) ↔ (in_set blocking_node_statuses s ≡ ok false)
unfolding blocked_node_violations
blocked_iff s l = (λ h. ground arith, λ b. ground arith)

-- A node that an executable document may contain.
pub record NodeIsReady (node : Json) : Type 0 where
  pub node_status : Json
  pub interrogation : Json
  pub facts : Fields
  pub reads_status : get "node_status" node ≡ ok node_status
  pub reads_interrogation : get "interrogation_result" node ≡ ok interrogation
  pub is_facts : as_dict (or_else interrogation (obj end)) ≡ ok facts
  pub buildable : IsBuildable facts
  pub responsive : IsResponsive facts
  pub approved : IsApproved facts
  pub evidenced : IsEvidenced facts
  pub unblocked : in_set blocking_node_statuses node_status ≡ ok false

node_violations_sound :
    (index : ℕ) (node : Json) → node_violations true index node ≡ ok [] → NodeIsReady node
unfolding node_violations
node_violations_sound index node h =
    let (node_status, reads_status, h1) = >>=-eq-ok (get "node_status" node) _ h in
    let (raw, reads_interrogation, h2) = >>=-eq-ok (get "interrogation_result" node) _ h1 in
    let (facts, is_facts, h3) = >>=-eq-ok (as_dict (or_else raw (obj end))) _ h2 in
    let silent = collect-eq-nil _ h3 in
    record {
      node_status = node_status;
      interrogation = raw;
      facts = facts;
      reads_status = reads_status;
      reads_interrogation = reads_interrogation;
      is_facts = is_facts;
      buildable = (construction_iff facts (node_location index)).0 (ok-injective silent.0);
      responsive = (IsResponsive-iff facts (node_location index)).0 silent.1.0;
      approved = (approval_iff facts (node_location index)).0 (ok-injective silent.1.1.0);
      evidenced = (evidence_iff facts (node_location index)).0 (ok-injective silent.1.1.1.0);
      unblocked = (blocked_iff node_status (node_location index)).0 silent.1.1.1.1.0;
    }

node_violations_complete :
    (index : ℕ) (node : Json) → NodeIsReady node → node_violations true index node ≡ ok []
unfolding node_violations collect
node_violations_complete index node n =
    let location = node_location index in
    rw (n.reads_status, n.reads_interrogation, n.is_facts)
      (rw (
        (construction_iff n.facts location).1 n.buildable,
        (IsResponsive-iff n.facts location).1 n.responsive,
        (approval_iff n.facts location).1 n.approved,
        (evidence_iff n.facts location).1 n.evidenced,
        (blocked_iff n.node_status location).1 n.unblocked,
      ))

-- In an executable document a node reports nothing exactly when it is an object whose
-- interrogation is an object or falsy, every required proof, approval, permission and piece of
-- evidence is there with its object, and its own status does not block.
pub node_violations_iff :
    (index : ℕ) (node : Json) → (node_violations true index node ≡ ok []) ↔ NodeIsReady node
node_violations_iff index node =
    (node_violations_sound index node, node_violations_complete index node)

pub nodes_violations_sound :
    (index : ℕ) (ns : List Json) → nodes_violations true index ns ≡ ok [] → All NodeIsReady ns
unfolding nodes_violations
nodes_violations_sound index [] h = tt
nodes_violations_sound index (node ∷ rest) h =
    let (here, later) = extend-eq-nil _ (nodes_violations true (suc index) rest) h in
    (node_violations_sound index node here, nodes_violations_sound (suc index) rest later)
