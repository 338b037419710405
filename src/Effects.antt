-- ===== src/Effects.antt =====
-- validator/action_effects.py: what the proposed Builder actions do to the approved classes and to
-- the accepted build tree, the permissions for it, and the diagnostics that block an action.
pub mod Inputs
pub mod Permissions
pub mod Records
pub mod ClassEffect
pub mod StructureEffect
pub mod BuildRecord
pub mod Derive
pub mod Permits
pub mod PermissionLaws
pub mod Authority
pub mod Forbidden
pub mod ReportLaws
pub mod RecordLaws
pub mod DeriveLaws
pub mod Accounting
pub mod TreeLaws
