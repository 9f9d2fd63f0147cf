-- ===== src/Karma.antt =====
-- mt-core/karma/src/cpp and cpp-utils/src/cpp/lib/BucketsOf.hpp: what an account may still do.
pub mod BucketsOf
pub mod KarmaAccount
pub mod KarmaPolicyBasic
mod Tests
