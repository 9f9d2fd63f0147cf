-- ===== src/OefFunctions.antt =====
-- mt-core/oef-functions: how an agent logs in and leaves.
pub mod InitialHandshake
mod Tests
