-- ===== src/Faucet.antt =====
-- packages/faucet.
pub mod Tokens
