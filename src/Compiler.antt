-- ===== src/Compiler.antt =====
-- compiler/src/lib.rs and compiler/src/error.rs: the compiler is bytecode that the build makes, and is run
-- by the virtual machine with the source as its input and the target as its output.
pub mod Chain
use wispy_vm.Compiler.Chain.{chain, chain_reader, slice_reader}
use wispy_vm.Device.{ok}
use wispy_vm.Device.ReadWrite.{Reader, Writer, ReadWriteDevice, read_write_device}
use wispy_vm.File.{FileError}
use wispy_vm.File.Void.{void_file_system}
use wispy_vm.Inexact.{Floats}
use wispy_vm.Prelude.{ℕ, ◌^◌, Option, List, [], ◌∷◌, ◌++◌, replicate}
use wispy_vm.Primitive.{Attempt, done, failed, stuck}
use wispy_vm.Process.{void_context}
use wispy_vm.R7rs.{SmallError, SmallPrimitiveSet, Parts, operate, is_critical}
use wispy_vm.R7rs as R7rs
use wispy_vm.Time.{void_clock}
use wispy_vm.Vm.Error.{Error}
use wispy_vm.Vm.Machine as Machine
use wispy_vm.Vm.Memory.{Memory, Outcome}
use wispy_vm.Vm.Memory.Stack as Stack
use wispy_vm.Vm.Value.{Value, Number, zero_value}

-- `enum CompileError`
pub data CompileError : Type 0 where
  run : SmallError → CompileError
  user : List ℕ → CompileError
  vm : Error → CompileError

-- What a compilation gives, where `unresolved` is a panic, or a bound of the model that was met.
pub data Compiled : Type 0 where
  compiled : Compiled
  refused : CompileError → Compiled
  unresolved : Compiled

abbrev pub default_heap_size : ℕ
default_heap_size = 2 ^ 22

-- `Write` for a vector.
abbrev pub vector_writer : {X : Type 0} → Writer (List ℕ) X
vector_writer = record { write_all = λ byte bytes. (bytes ++ byte ∷ [], ok tt) }

-- What the compiler is run with that is not of the source: the functions of numbers, the text of an error, the decoding of text with errors, the bytecode of the
-- compiler, and the bounds of the model.
pub record Setup (X : Type 0) : Type 0 where
  pub floats : Floats X
  pub power : Number → Number → Number
  pub float : ℕ → Number
  pub message : SmallError → List ℕ
  pub from_utf8_lossy : List ℕ → List ℕ
  pub bytecode : List ℕ
  pub prelude : List ℕ
  pub fuel : ℕ
  pub attempts : ℕ
  pub rounds : ℕ

-- `map_err` of the run: what the compiler has written as its error is the error of the program.
unfoldable pub compile_error : (List ℕ → List ℕ) → List ℕ → SmallError → CompileError
compile_error lossy [] e = run e
compile_error lossy (byte ∷ bytes) e = user (lossy (byte ∷ bytes))

module _ {I O G X : Type 0} (setup : Setup X) (reader : Reader I G) (writer : Writer O G) where
  abbrev pub Devices : Type 0
  Devices = SmallPrimitiveSet (ReadWriteDevice I O (List ℕ)) (Unit {0}) (Unit {0})

  abbrev pub parts :
      Parts (ReadWriteDevice I O (List ℕ)) G (Unit {0}) (List ℕ) FileError (Unit {0}) X
  parts = record {
    device = read_write_device reader writer vector_writer;
    file = void_file_system;
    process_context = void_context;
    clock = void_clock;
    floats = setup.floats;
    power = setup.power;
  }

  unfoldable pub compile_result : Devices × Attempt SmallError (Unit {0}) → O × Compiled
  unfolding compile_error
  compile_result (s, done a m) = (s.device.output, compiled)
  compile_result (s, failed e m) =
      (s.device.output, refused (compile_error setup.from_utf8_lossy s.device.error e))
  compile_result (s, Attempt.stuck) = (s.device.output, unresolved)

  -- The part of `compile_bare` behind the creation of the machine.
  unfoldable pub run_compiler : I → O → Outcome (Unit {0}) → O × Compiled
  unfolding compile_result
  run_compiler source target (Outcome.err e m) = (target, refused (vm e))
  run_compiler source target Outcome.stuck = (target, unresolved)
  run_compiler source target (Outcome.ok a memory) =
      let device : ReadWriteDevice I O (List ℕ) = record {
        input = source;
        output = target;
        error = [];
      } in
      let state : Devices = record { device = device; file = tt; time = tt } in
      compile_result (
        Machine.run (operate setup.fuel parts) R7rs.vm is_critical setup.message setup.fuel
          setup.float setup.attempts setup.rounds setup.bytecode state memory)

  -- `compile_bare`
  unfoldable pub compile_bare : I → O → O × Compiled
  unfolding run_compiler
  compile_bare source target =
      run_compiler source target (Stack.new (replicate default_heap_size zero_value))

-- `compile_r7rs`: the prelude stands before the source.
unfoldable pub compile_r7rs :
    {I O G X : Type 0} → Setup X → Reader I G → Writer O G → I → O → O × Compiled
unfolding compile_bare
compile_r7rs setup reader writer source target =
    compile_bare setup (chain_reader slice_reader reader) writer (chain setup.prelude source) target
