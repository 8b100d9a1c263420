-- ===== src/Cfg.antt =====
-- src/cfg: the control-flow graph of a program.
pub mod Label
pub mod Graph
pub mod Blocks
pub mod Wto
mod Tests
