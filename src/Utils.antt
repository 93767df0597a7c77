-- ===== src/Utils.antt =====
-- packages/utils/src.
pub mod Arrays
