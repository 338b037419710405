-- ===== src/Engine.antt =====
-- validator/engine.py: the validation of a document.
pub mod Preflight
pub mod Schemas
pub mod Validate
pub mod PreflightLaws
pub mod ValidateLaws
