-- ===== src/Gateway.antt =====
-- The Gateway's execution grants, version 2: platform/gateway_authorization, v2.py, store.py and
-- store_v2.py.
pub mod Grant
pub mod Store
pub mod Exclusive
pub mod Methods
pub mod Calls
pub mod Admission
pub mod Frame
pub mod Revocation
pub mod Permanence
pub mod Tests
