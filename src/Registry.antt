-- ===== src/Registry.antt =====
-- validator/action_contract_registry.py and validator/claim_policy_registry.py: the two tables that
-- the rest of the pipeline is driven by.
pub mod Contract
pub mod PageActions
pub mod StructureActions
pub mod Actions
pub mod Claims
pub mod Closure
