-- ===== src/CosmWasm.antt =====
-- packages/cosmwasm-stargate/src: predictable addresses of contracts.
pub mod Instantiate2
