-- ===== src/Encoding.antt =====
-- packages/encoding/src: text encodings of byte arrays.
pub mod Ascii
pub mod Hex
pub mod Base64
