-- ===== src/Crab/Splitdbm.antt =====
-- src/crab/splitdbm: difference-bound matrices, as sparse weighted graphs.
pub mod Graph
