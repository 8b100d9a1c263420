-- ===== src/Crab.antt =====
-- src/crab: the abstract domains.
pub mod Interval
pub mod Dsu
pub mod Bitset
pub mod Splitdbm
pub mod VarIdMap
pub mod TypeEncoding
pub mod VarRegistry
pub mod TypeToNumber
pub mod OffsetMap
mod Tests
