-- ===== src/Process.antt =====
-- The crate process-context: the interface of process-context/src/process_context.rs, the contexts in
-- memory and without anything, and the primitives of primitive_set.rs.
use wispy_vm.Prelude.{ℕ, zero, suc, List, [], ◌∷◌, reverse, drop}
use wispy_vm.Vm.Cons.{Cons}
use wispy_vm.Vm.Error.{Error}
use wispy_vm.Vm.Memory.{M, ◌>>=◌, ◌>>◌, pure, fail, gets, modify, car, set_car, set_cdr}
use wispy_vm.Vm.Memory.Gc.{allocate}
use wispy_vm.Vm.Memory.Stack.{null, cons, push}
use wispy_vm.Vm.Memory.Text.{build_raw_string}

-- `trait ProcessContext`: strings are lists of code points.
pub record ProcessContext : Type 0 where
  pub command_line_rev : List (List ℕ)
  pub environment_variables : List (List ℕ × List ℕ)

-- `impl ProcessContext for MemoryProcessContext`, of the fields `arguments` and
-- `environment_variables`.
unfoldable pub memory_context : List (List ℕ) → List (List ℕ × List ℕ) → ProcessContext
memory_context arguments variables = record {
  command_line_rev = reverse arguments;
  environment_variables = variables;
}

unfoldable pub void_context : ProcessContext
void_context = record { command_line_rev = []; environment_variables = [] }

-- `struct OsProcessContext`, with the arguments and the variables that the system gives.
pub record OsProcessContext : Type 0 where
  pub arguments : List (List ℕ)
  pub environment_variables : List (List ℕ × List ℕ)
  pub argument_skip : ℕ

unfoldable pub with_argument_skip : ℕ → OsProcessContext → OsProcessContext
with_argument_skip skip c = record c { argument_skip = skip }

-- `impl ProcessContext for OsProcessContext`
unfoldable pub os_context : OsProcessContext → ProcessContext
os_context c = record {
  command_line_rev = reverse (drop c.argument_skip c.arguments);
  environment_variables = c.environment_variables;
}

-- `impl ProcessContext for LibcProcessContext`, where the arguments are text: at others the source panics.
unfoldable pub libc_context : List (List ℕ) → ProcessContext
libc_context arguments = record { command_line_rev = reverse arguments; environment_variables = [] }

abbrev pub get_register : M Cons
get_register = gets (λ m. m.register)

abbrev pub put_register : Cons → M (Unit {0})
put_register c = modify (λ m. record m { register = c })

-- The loop over the arguments, the last of which comes first.
unfoldable pub list_arguments : List (List ℕ) → M (Unit {0})
list_arguments [] = pure tt
list_arguments (argument ∷ arguments) = do
  string ← build_raw_string argument
  register ← get_register
  list ← cons string register
  put_register list
  list_arguments arguments

-- The loop over the variables.
unfoldable pub list_variables : List (List ℕ × List ℕ) → M (Unit {0})
list_variables [] = pure tt
list_variables ((key, value) ∷ variables) = do
  nil ← null
  pair ← allocate nil nil
  register ← get_register
  list ← cons pair register
  put_register list
  key_string ← build_raw_string key
  register' ← get_register
  pair' ← car register'
  set_car pair' key_string
  value_string ← build_raw_string value
  register'' ← get_register
  pair'' ← car register''
  set_cdr pair'' value_string
  list_variables variables

unfoldable pub command_line : ProcessContext → M (Unit {0})
command_line context = do
  nil ← null
  put_register nil
  list_arguments context.command_line_rev
  register ← get_register
  push register

unfoldable pub environment_variables : ProcessContext → M (Unit {0})
environment_variables context = do
  nil ← null
  put_register nil
  list_variables context.environment_variables
  register ← get_register
  push register

-- `operate` of `ProcessContextPrimitiveSet`
unfoldable pub operate_process : ProcessContext → ℕ → M (Unit {0})
operate_process context zero = command_line context
operate_process context (suc zero) = environment_variables context
operate_process context (suc (suc p)) = fail Error.illegal_primitive
