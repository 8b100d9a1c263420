-- ===== src/Base.antt =====
-- Names and helpers that every part of the development shares: library names passed on, Boolean
-- tests on the native numbers, the chain of steps that may panic, lists, integers and bits.
pub mod Tests
pub mod Lists
pub mod Int
pub mod Bits
pub mod Maps
pub mod Decimal
