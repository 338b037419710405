-- ===== src/Tests/Rules.antt =====
-- The rules run on concrete documents.
use ev4_constructability_eng.Base.{◌≡◌, refl, true, false, [], ◌∷◌, All}
use ev4_constructability_eng.Base.Text.{lower, strip}
use ev4_constructability_eng.Base.Python.{ok}
use ev4_constructability_eng.Json.{py_eq, str}
use ev4_constructability_eng.Rules.Document.{
  blocking_dependencies, builder_decisions_required, builder_package, collect, nodes,
  package_status, review, review_status, same_class_contract, status, strategy_map,
}
use ev4_constructability_eng.Rules.Unresolved.{
  Undecided, contains_unresolved_decision, contains_unresolved_decision_iff,
}
use ev4_constructability_eng.Rules.Contracts.{
  actions_violations, architect_contract, first_batch_contract, mode_contract, schema_contract,
  strategy_map_contract,
}
use ev4_constructability_eng.Rules.Nodes.{
  approval_violations, blocked_node_violations, construction_violations, evidence_violations, flag,
  node_violations, nodes_violations, proof_object, responsive_violations,
}
use ev4_constructability_eng.Rules.Evaluate.{
  assumptions_violations, confirmation_violations, evaluate_document, executable_violations,
  lock_violations, logged_assumption_violations, qa_violations, readiness_violations,
  reviewed_violations,
}
use ev4_constructability_eng.Rules.NodeLaws.{NodeIsReady, node_violations_iff}
use ev4_constructability_eng.Rules.PackageLaws.{ActionIsDecided, actions_violations_iff}
use ev4_constructability_eng.Rules.Gate.{IsBuilderReady, evaluate_document_sound}
use ev4_constructability_eng.Tests.Data.{
  decided_action, proven_node, ready_document, undecided_parameters, unproven_node,
}

node_clean : node_violations true 0 proven_node ≡ ok []
unfolding node_violations collect construction_violations responsive_violations approval_violations
    evidence_violations blocked_node_violations flag proof_object
node_clean = refl

node_reported : node_violations false 0 unproven_node ≡ node_violations true 0 unproven_node
unfolding node_violations collect construction_violations responsive_violations approval_violations
    evidence_violations blocked_node_violations flag proof_object
node_reported = refl

node_violations_iff_example : NodeIsReady proven_node
node_violations_iff_example = (node_violations_iff 0 proven_node).0 node_clean

batch_clean : actions_violations 0 (decided_action ∷ []) ≡ []
unfolding actions_violations contains_unresolved_decision strip lower
batch_clean = refl

actions_violations_iff_example : All ActionIsDecided (decided_action ∷ [])
actions_violations_iff_example = (actions_violations_iff 0 (decided_action ∷ [])).0 batch_clean

search_finds : contains_unresolved_decision undecided_parameters ≡ true
unfolding contains_unresolved_decision strip lower
search_finds = refl

contains_unresolved_decision_iff_example : Undecided undecided_parameters
contains_unresolved_decision_iff_example =
    (contains_unresolved_decision_iff undecided_parameters).0 search_finds

status_read : status ready_document ≡ ok (str "executable_ready")
unfolding status package_status review_status review builder_package
status_read = refl

gate_silent : evaluate_document ready_document "package" ≡ ok []
unfolding evaluate_document collect status package_status review_status review builder_package
    strategy_map mode_contract schema_contract architect_contract strategy_map_contract
    first_batch_contract readiness_violations reviewed_violations executable_violations
    qa_violations logged_assumption_violations assumptions_violations blocking_dependencies
    builder_decisions_required nodes nodes_violations node_violations construction_violations
    responsive_violations approval_violations evidence_violations blocked_node_violations flag
    proof_object same_class_contract confirmation_violations lock_violations
    contains_unresolved_decision strip lower py_eq
gate_silent = refl

evaluate_document_sound_example : IsBuilderReady ready_document
evaluate_document_sound_example =
    evaluate_document_sound ready_document "package" (str "executable_ready") status_read refl
      gate_silent
