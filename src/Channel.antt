-- ===== src/Channel.antt =====
-- internal/infrastructure/persistence/memory/channel: the ChannelCore repository.
pub mod Types
pub mod Repository
pub mod Split
pub mod Send
pub mod Worker
pub mod Inbound
pub mod Actions
pub mod Janitor
pub mod Prepare
pub mod Status
pub mod Lifecycle
