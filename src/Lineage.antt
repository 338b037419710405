-- ===== src/Lineage.antt =====
-- scripts/validate-ce-decision-lineage-sequence.py: decision lineage from the CE intake to its output.
pub mod Entries
pub mod Sequence
pub mod SequenceLaws
