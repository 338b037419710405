-- ===== src/Evaluation.antt =====
-- validator/claim_evaluation_support.py and validator/claim_evaluators.py: how a claim of a subject
-- is evaluated against its policy.
pub mod Support
pub mod Attributed
pub mod Decision
pub mod Obligation
pub mod Runtime
pub mod RuntimeLaws
pub mod Settled
pub mod DecisionLaws
pub mod Total
