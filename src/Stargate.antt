-- ===== src/Stargate.antt =====
-- packages/stargate/src: fees, and messages between protobuf and Amino JSON.
pub mod Fee
pub mod DecimalText
pub mod AminoTypes
pub mod BigInt
pub mod Modules
pub mod Default
