-- ===== src/Execution.antt =====
-- validator/runtime_execution.py: the runtime requests that the repository executes itself, and
-- the selection of an execution's result.
pub mod Requests
pub mod Runners
pub mod Execute
pub mod RunLaws
pub mod Asked
pub mod ItemLaws
pub mod ExecuteLaws
pub mod BindingLaws
pub mod SelectLaws
