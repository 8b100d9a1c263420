-- ===== src/Ir.antt =====
-- The instruction set and the decoder.
pub mod Isa
pub mod Contract
pub mod Syntax
pub mod CallProto
pub mod Config
pub mod Assertion
pub mod Assertions
pub mod Marshal
pub mod Unmarshal
mod Tests
