-- ===== src/Emt.antt =====
-- src/adapters/emt: the quote and trader adapters for EMT, whose broker library is not connected yet, and the
-- factory that makes both from a credential.
pub mod Quote
pub mod Trader
pub mod Factory
mod Tests
