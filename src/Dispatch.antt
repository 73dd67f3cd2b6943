-- ===== src/Dispatch.antt =====
-- The durable intents of Host commands: dispatch_intent.py and dispatch_intent_store.py of
-- platform/execution_reconciliation.
pub mod Intent
pub mod Store
pub mod Changes
pub mod Linked
pub mod Laws
pub mod Recovery
pub mod Lookup
pub mod Tests
