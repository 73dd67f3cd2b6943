-- ===== src/Coordination.antt =====
-- The coordinator that runs a Saga's Slices on their Hosts (platform/execution_coordination,
-- materialized_coordinator.py), over the stores of Sagas and of dispatch intents.
pub mod Effects
pub mod Contracts
pub mod Inputs
pub mod Indexes
pub mod Lookup
pub mod Bindings
pub mod Validate
pub mod Joined
pub mod Checked
pub mod Execute
pub mod Rounds
pub mod Hoare
pub mod Guarded
pub mod Outcomes
pub mod Mirror
pub mod Coordinate
pub mod Commanded
mod Tests
