-- ===== src/Saga/Transitions.antt =====
-- saga_transitions_v2.py: the pure transitions of a Saga. The guards that they share are in
-- `Checks`, the next snapshot of a Saga in `Rebuild`, and the transitions in `Admission`,
-- `Verification` and `Closing`.
pub mod Checks
pub mod Rebuild
pub mod Admission
pub mod Verification
pub mod Closing
