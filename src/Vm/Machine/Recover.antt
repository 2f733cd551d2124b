-- ===== src/Vm/Machine/Recover.antt =====
-- vm/src/vm.rs: the call of an error handler.
use wispy_vm.Prelude.{ℕ, ◌+◌, false, List, []}
use wispy_vm.Vm.Tags.{constant_instruction, call_instruction, symbol_type}
use wispy_vm.Vm.Cons
use wispy_vm.Vm.Cons.{Cons}
use wispy_vm.Vm.Arity.{build_arity}
use wispy_vm.Vm.Memory.{M, ◌>>=◌, ◌>>◌, gets}
use wispy_vm.Vm.Memory.Gc.{allocate}
use wispy_vm.Vm.Memory.Stack.{null}
use wispy_vm.Vm.Memory.Text.{build_string, write_str}
use wispy_vm.Vm.Machine.Instructions.{set_code, set_register}

-- The code is made to call the error handler of the program with the message of the error.
unfoldable pub schedule_handler : ℕ → List ℕ → Cons → M (Unit {0})
schedule_handler fuel text handler = do
  set_register handler
  string ← build_string fuel []
  r ← gets (λ m. m.register)
  symbol ← allocate r (Cons.set_tag string symbol_type)
  c ← gets (λ m. m.code)
  code ←
      allocate symbol
        (Cons.set_tag c (call_instruction + build_arity (record { count = 1; variadic = false })))
  set_code code
  nil ← null
  set_register nil
  write_str fuel text
  r' ← gets (λ m. m.register)
  c' ← gets (λ m. m.code)
  code' ← allocate r' (Cons.set_tag c' constant_instruction)
  set_code code'
