-- ===== src/Scope.antt =====
-- The comparison of what a Host did with what was approved (platform/execution_reconciliation,
-- scope_comparator.py and v2.py, and the rules of platform/approval_scope, contracts.py).
pub mod Rules
pub mod Selector
pub mod Compare
pub mod Allocation
pub mod Evaluate
pub mod Local
pub mod Listing
pub mod Budget
pub mod Search
pub mod Candidates
pub mod Creations
pub mod Modifications
pub mod Licences
pub mod Authority
mod Tests
