-- ===== src/Bridge.antt =====
-- internal/bootstrap/loopcore/bridge.go: what LoopCore does with an inbound message and with the
-- events of an agent.
pub mod Inbound
pub mod Receive
pub mod Project
