-- ===== src/BasicComms.antt =====
-- basic_comms/src/cpp: byte rings, byte streams over scattered buffers, and the endpoint.
pub mod Memory
pub mod Window
pub mod RingBuffer
pub mod Sample
pub mod ConstCharArrayBuffer
pub mod CharArrayBuffer
pub mod EndpointBase
pub mod Int32
mod Tests
