-- ===== src/Paradigm.antt =====
-- validator/reference_paradigm_lock.py: the lock of a reference paradigm.
pub mod Regions
pub mod Lock
pub mod LockLaws
