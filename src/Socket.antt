-- ===== src/Socket.antt =====
-- packages/socket.
pub mod Queue
