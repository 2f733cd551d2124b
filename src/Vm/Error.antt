-- ===== src/Vm/Error.antt =====
-- vm/src/error.rs: the errors of the virtual machine.
use wispy_vm.Prelude.{Bool, true, false}

-- `Format` carries a `fmt::Error`, which has one value.
pub data Error : Type 0 where
  argument_count : Error
  cons_expected : Error
  bytecode_end : Error
  format : Error
  invalid_memory_access : Error
  illegal_instruction : Error
  illegal_primitive : Error
  number_expected : Error
  out_of_memory : Error
  procedure_expected : Error

unfoldable pub is_critical : Error → Bool
is_critical bytecode_end = true
is_critical format = true
is_critical illegal_instruction = true
is_critical out_of_memory = true
is_critical _ = false
