-- ===== src/Main.antt =====
-- src/main.cpp: how the process starts, runs and ends.
pub mod Parts
pub mod Adapters
pub mod Building
pub mod Startup
pub mod Noting
pub mod Order
pub mod Ending
pub mod Starting
mod Examples
mod Tests
