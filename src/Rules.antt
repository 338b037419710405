-- ===== src/Rules.antt =====
-- validator/rules.py: the rules that a review document or a Builder package is checked against.
pub mod Document
pub mod Unresolved
pub mod Contracts
pub mod Nodes
pub mod Evaluate
pub mod Parts
pub mod NodeLaws
pub mod PackageLaws
pub mod Gate
pub mod ModeLaws
pub mod ClassLaws
