-- ===== src/Clients.antt =====
-- internal/infrastructure: the clients by which one part of the program calls another.
pub mod Gate
pub mod Channel
pub mod Agent
