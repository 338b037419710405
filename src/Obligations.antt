-- ===== src/Obligations.antt =====
-- validator/runtime_obligations.py: what has to be tested after the page is built.
pub mod Normalize
pub mod NormalizeLaws
pub mod Derive
pub mod DeriveLaws
pub mod Lifecycle
