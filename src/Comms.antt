-- ===== src/Comms.antt =====
-- mt-core/comms/src/cpp: messages framed by a length header, in either byte order.
pub mod Endianness
pub mod ProtoMessageReader
pub mod ProtoMessageSender
pub mod RoundTrip
mod Tests
