-- ===== src/Receipts.antt =====
-- validator/kernel_decision_receipts.py: the visible receipts of Kernel decisions.
pub mod Trace
pub mod Surface
pub mod Walk
pub mod TraceLaws
pub mod SurfaceLaws
pub mod WalkLaws
