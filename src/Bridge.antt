-- ===== src/Bridge.antt =====
-- src/bridge and src/common/proto: conversions and the three bridges over the gRPC clients.
pub mod Convert
pub mod Strategy
pub mod Cache
pub mod Races
pub mod Account
pub mod AccountRisk
pub mod Config
mod Tests
mod RaceTests
