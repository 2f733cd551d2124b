-- ===== src/File.antt =====
-- The crate file: the interface of file/src/file_system.rs, the errors of file_system/error.rs, the
-- file system in memory, and the primitives.
pub mod Memory
pub mod Void
pub mod Utility
pub mod Descriptors
pub mod Utf8
pub mod Os
pub mod Libc
pub mod Primitives
use wispy_vm.Prelude.{ℕ, Bool, Option}
use wispy_vm.Vm.Value.{Value}
use wispy_vm.Vm.Memory as VmMemory

-- `enum FileError`. `open` is a reserved word, so it is `open_failure`.
pub data FileError : Type 0 where
  open_failure : FileError
  close : FileError
  invalid_file_descriptor : FileError
  read : FileError
  write : FileError
  flush : FileError
  delete : FileError
  exists : FileError
  path_decode : FileError

-- What an operation returns: a value, or an error of the file system.
pub data Result (E A : Type 0) : Type 0 where
  ok : A → Result E A
  err : E → Result E A

-- `trait FileSystem`, over the states `S` of a file system, its paths and its errors. An operation that fails
-- can leave another state.
pub record FileSystem (S P E : Type 0) : Type 0 where
  pub open_file : P → Bool → S → S × Result E ℕ
  pub close : ℕ → S → S × Result E (Unit {0})
  pub read : ℕ → S → S × Result E (Option ℕ)
  pub write : ℕ → ℕ → S → S × Result E (Unit {0})
  pub flush : ℕ → S → S × Result E (Unit {0})
  pub delete : P → S → S × Result E (Unit {0})
  pub exists : P → S → Result E Bool
  pub decode_path : VmMemory.Memory → Value → Result E P
