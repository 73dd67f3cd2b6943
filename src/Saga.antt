-- ===== src/Saga.antt =====
-- The execution Saga, version 2: platform/execution_reconciliation, saga_contracts_v2.py,
-- saga_state_v2.py, saga_transitions_v2.py and saga_store_v2.py.
pub mod Definition
pub mod State
pub mod Evidence
pub mod Transitions
pub mod Normal
pub mod Locate
pub mod Rebuilt
pub mod Moves
pub mod Fresh
pub mod Requests
pub mod Refinement
pub mod Lifecycle
pub mod Distinct
pub mod Coherence
pub mod Invariant
pub mod Persistence
pub mod Revision
pub mod Terminal
pub mod Replay
pub mod Order
pub mod Progress
pub mod Store
pub mod Tests
