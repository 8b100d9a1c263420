-- ===== src/Arith.antt =====
-- src/arith: the checked integers of the abstract domain, and their extension by infinities.
pub mod Number
pub mod Linear
pub mod Extended
mod Tests
