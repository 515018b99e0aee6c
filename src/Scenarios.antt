-- ===== src/Scenarios.antt =====
-- The tests of crates/serving/src/lib.rs.
pub mod Json
pub mod Serde
pub mod Fixture
pub mod Disk
pub mod Wire
pub mod Origin
pub mod Gateway
pub mod Client
pub mod Run
pub mod Passing
pub mod Prepared
pub mod Reloading
mod Tests
mod Doubles
