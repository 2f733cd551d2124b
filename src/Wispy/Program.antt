-- ===== src/Wispy/Program.antt =====
-- wispy/src/lib.rs and wispy/src/main.rs: compiling a program behind its preludes, and the commands. What
-- is read from the command line and the files are parameters.
use wispy_vm.Compiler.{
  Setup, Compiled, CompileError, compiled, refused, compile_r7rs, vector_writer,
}
use wispy_vm.Compiler.Chain.{
  Chain, chain, chain_reader, slice_reader, Gives, chain-Gives, slice-Gives,
}
use wispy_vm.Device.ReadWrite.{Reader, Writer}
use wispy_vm.File.Utf8.{encode}
use wispy_vm.Prelude.{ℕ, Option, none, some, List, [], ◌++◌, replicate, codes}
use wispy_vm.Primitive.{Attempt}
use wispy_vm.Profiler.{Chars}
use wispy_vm.R7rs.{SmallError, SmallPrimitiveSet, Parts, is_critical}
use wispy_vm.R7rs as R7rs
use wispy_vm.Vm.Error.{Error}
use wispy_vm.Vm.Machine as Machine
use wispy_vm.Vm.Memory.{Outcome}
use wispy_vm.Vm.Memory.Stack as Stack
use wispy_vm.Vm.Value.{zero_value}
use wispy_vm.Wispy.{Table, operate_wispy}
use wispy_vm.Wispy.Loads.{Disk, resolve_loads}

-- `import`: the libraries of a program, between line feeds.
abbrev pub import_line : List ℕ
import_line = codes "\n(import (scheme base) (scheme write) (wispy algebra))\n"

-- The prelude of the programs, the import, and a source.
abbrev pub wispy_reader : {I G : Type 0} → Reader I G → Reader (Chain (Chain (List ℕ) (List ℕ)) I) G
wispy_reader reader = chain_reader (chain_reader slice_reader slice_reader) reader

abbrev pub wispy_input : {I : Type 0} → List ℕ → I → Chain (Chain (List ℕ) (List ℕ)) I
wispy_input prelude source = chain (chain prelude import_line) source

-- The compiler's whole input, where `compile_wispy` is given a source that gives some bytes: the prelude
-- of R7RS, the one of the programs, the import and the source.
compile_wispy_input :
    {I G : Type 0} (prelude wispy_prelude : List ℕ) (reader : Reader I G) {source : I}
    {bytes : List ℕ}
    → Gives reader source bytes
    → Gives
        (chain_reader slice_reader (wispy_reader reader))
        (chain prelude (wispy_input wispy_prelude source))
        (prelude ++ ((wispy_prelude ++ import_line) ++ bytes))
compile_wispy_input prelude wispy_prelude reader g =
    chain-Gives slice_reader (wispy_reader reader) (slice-Gives prelude) (
      chain-Gives (chain_reader slice_reader slice_reader) reader
        (chain-Gives slice_reader slice_reader (slice-Gives wispy_prelude)
          (slice-Gives import_line))
        g)

-- `compile_wispy`, with the text `WISPY_PRELUDE`.
unfoldable pub compile_wispy :
    {I O G X : Type 0} → Setup X → List ℕ → Reader I G → Writer O G → I → O → O × Compiled
compile_wispy setup wispy_prelude reader writer source target =
    compile_r7rs setup (wispy_reader reader) writer (wispy_input wispy_prelude source) target

-- The files of the commands. `read` gives the bytes of a file.
pub record Files (P : Type 0) : Type 0 where
  pub disk : Disk P
  pub read : P → Option (List ℕ)
  pub with_extension : P → Chars → P

-- `enum Command` and `struct Args`, without the heap size that `compile` ignores.
pub data Command (P : Type 0) : Type 0 where
  compile : P → Option P → Command P
  run : P → ℕ → Command P

pub record Args (P : Type 0) : Type 0 where
  pub command : Option (Command P)
  pub file : Option P
  pub heap_size : ℕ

-- What `main` does in the end: it writes a file, runs bytecode in a heap, or fails. `endless` is where
-- the loads of a source go deeper than the bound, and `unresolved` is as for the compiler.
pub data Action (P : Type 0) : Type 0 where
  write_file : P → List ℕ → Action P
  run_bytecode : List ℕ → ℕ → Action P
  unreadable : P → Action P
  invalid : CompileError → Action P
  usage endless unresolved : Action P

module _ {P X : Type 0} (files : Files P) (setup : Setup X) (wispy_prelude : List ℕ)
    (depth : ℕ) where
  -- The rest of a command behind `compile_wispy`.
  unfoldable pub with_bytecode : List ℕ × Compiled → (List ℕ → Action P) → Action P
  with_bytecode (bytecode, compiled) f = f bytecode
  with_bytecode (bytecode, refused e) f = invalid e
  with_bytecode (bytecode, Compiled.unresolved) f = unresolved

  unfoldable pub with_source : Option Chars → (List ℕ → Action P) → Action P
  unfolding with_bytecode
  with_source none f = endless
  with_source (some source) f =
      with_bytecode
        (compile_wispy {G = ⊥} setup wispy_prelude slice_reader vector_writer (encode source) []) f

  -- `read_and_resolve`, and the compilation of the source.
  unfoldable pub compile_file : P → (List ℕ → Action P) → Action P
  unfolding with_source
  compile_file file f = elim (files.disk.read_to_string file) [
    | none ↦ unreadable file
    | some source ↦ with_source (resolve_loads files.disk depth source file) f
  ]

  unfoldable pub command_action : Command P → Action P
  unfolding compile_file
  command_action (compile file output) =
      let out : P = elim output [
        | some out ↦ out
        | none ↦ files.with_extension file (codes "bc")
      ] in
      compile_file file (write_file out)
  command_action (run file heap_size) = elim (files.read file) [
    | none ↦ unreadable file
    | some bytecode ↦ run_bytecode bytecode heap_size
  ]

  unfoldable pub file_action : Option P → ℕ → Action P
  unfolding compile_file
  file_action (some file) heap_size =
      compile_file file (λ bytecode. run_bytecode bytecode heap_size)
  file_action none heap_size = usage

  -- `main`
  unfoldable pub main : Args P → Action P
  unfolding command_action file_action
  main args = elim args.command [
    | some command ↦ command_action command
    | none ↦ file_action args.file args.heap_size
  ]

-- What running bytecode gives: the state of the primitives with the result, or an error of the creation
-- of the machine.
pub data Ran (S : Type 0) : Type 0 where
  ran : S → Attempt SmallError (Unit {0}) → Ran S
  not_created : Error → Ran S
  unfinished : Ran S

module _ {D G F P E C X : Type 0} (setup : Setup X) (table : Table)
    (parts : Parts D G F P E C X) where
  unfoldable pub run_machine :
      List ℕ → SmallPrimitiveSet D F C → Outcome (Unit {0}) → Ran (SmallPrimitiveSet D F C)
  run_machine bytecode s (Outcome.err e m) = not_created e
  run_machine bytecode s Outcome.stuck = unfinished
  run_machine bytecode s (Outcome.ok a m) =
      let (s', out) =
        Machine.run (operate_wispy table setup.fuel parts) R7rs.vm is_critical setup.message
          setup.fuel setup.float setup.attempts setup.rounds bytecode s m in
      ran s' out

  -- `run_bytecode` of main.rs, over the parts of the primitives and their states.
  unfoldable pub execute : List ℕ → ℕ → SmallPrimitiveSet D F C → Ran (SmallPrimitiveSet D F C)
  unfolding run_machine
  execute bytecode heap_size s = run_machine bytecode s (Stack.new (replicate heap_size zero_value))
