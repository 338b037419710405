-- ===== src/Tests.antt =====
-- Concrete documents, actions, obligations and receipts, the functions run on them, and the theorems applied
-- to them.
mod Data
mod Rules
mod Modes
mod Actions
mod Obligations
mod Registry
mod Receipts
mod Engine
mod Paradigm
mod Lineage
mod Effects
mod Review
mod Execution
mod Evaluation
