-- ===== src/Vm.antt =====
-- The crate vm: values, memory with its garbage collector, and the virtual machine.
pub mod Error
pub mod ValueInner
pub mod Cons
pub mod Value
pub mod Number
pub mod Tags
pub mod Memory
pub mod Arity
pub mod Machine
