-- ===== src/JsonRpc.antt =====
-- packages/json-rpc.
pub mod Values
pub mod Parse
