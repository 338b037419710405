-- ===== src/Review.antt =====
-- validator/review_obligations.py: what a review must cover of the Architect's nodes, and the
-- diagnostics that keep it from being complete.
pub mod Nodes
pub mod Inputs
pub mod Unit
pub mod Derive
pub mod UnitLaws
pub mod ClaimLaws
pub mod ContentLaws
pub mod CoverageLaws
pub mod DeriveLaws
pub mod UnitClaims
