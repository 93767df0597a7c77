-- ===== src/ProtoSigning.antt =====
-- packages/proto-signing/src: public keys in protobuf.
pub mod Pubkey
