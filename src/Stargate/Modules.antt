-- ===== src/Stargate/Modules.antt =====
-- packages/stargate/src/modules/*/aminomessages.ts: the conversions between the messages of protobuf
-- and those of Amino JSON. The message types of the package cosmjs-types are records of the fields
-- that the code takes apart.
pub mod Bank
pub mod Distribution
pub mod Vesting
pub mod Staking
pub mod Gov
pub mod Ibc
mod Tests
