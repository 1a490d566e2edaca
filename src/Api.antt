-- ===== src/Api.antt =====
-- internal/application/channel: the gRPC service of ChannelCore over the channel repository.
pub mod Messages
pub mod Stream
pub mod Send
pub mod Info
pub mod Actions
