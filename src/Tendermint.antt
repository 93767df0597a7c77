-- ===== src/Tendermint.antt =====
-- packages/tendermint-rpc.
pub mod Encodings
pub mod Checks
pub mod Dates
pub mod Hasher
