-- ===== src/Native.antt =====
-- The crate native: primitives that the virtual machine has for speed.
pub mod List
pub mod Equal
pub mod TypeCheck
pub mod Arithmetic
