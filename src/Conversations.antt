-- ===== src/Conversations.antt =====
-- mt-core/conversations/src/cpp: messages that name a path and a conversation, as the search core
-- sends and receives them.
pub mod Transport
pub mod ProtoPathMessageReader
pub mod ProtoPathMessageSender
pub mod RoundTrip
pub mod OutboundSearch
mod Tests
