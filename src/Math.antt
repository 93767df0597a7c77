-- ===== src/Math.antt =====
-- packages/math/src: safe integers, and decimals.
pub mod Number
pub mod Uint32
pub mod Int53
pub mod BigNumber
pub mod Uint64
pub mod Decimal
