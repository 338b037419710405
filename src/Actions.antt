-- ===== src/Actions.antt =====
-- validator/action_ir.py: Builder proposals are normalized into a closed intermediate form.
pub mod Canonical
pub mod Hidden
pub mod Values
pub mod Parameters
pub mod Normalize
pub mod KeyLaws
pub mod CanonicalLaws
pub mod Laws
