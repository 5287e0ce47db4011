-- ===== src/Arithmetic/Laws.antt =====
-- What the instructions on two items leave on the stack, as numbers.
pub mod Binary
pub mod Division
pub mod Shift
pub mod Single
pub mod Modular
pub mod Extend
pub mod Byte
