-- ===== src/CoreFunctions.antt =====
-- oef-core-functions/src/cpp/lib: queries over typed instances, and the directory of schemas.
pub mod Values
pub mod Attributes
pub mod Constraints
pub mod Instances
pub mod Query
pub mod Schemas
mod Tests
