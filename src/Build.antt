-- ===== src/Build.antt =====
-- The builders of an execution Saga's definition (platform/execution_reconciliation): the topological
-- order of the Slices of saga.py, and the builder of saga_v2.py.
pub mod Order
pub mod Definition
pub mod Chain
pub mod Forward
pub mod Counting
pub mod Relax
pub mod Graph
pub mod Topological
pub mod Loop
pub mod Sorted
pub mod Acyclic
pub mod Tests
