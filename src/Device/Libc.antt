-- ===== src/Device/Libc.antt =====
-- device/src/device/libc: the errors of error.rs, the traits of read.rs and write.rs, the device of
-- device.rs, and the standard streams of stdio.rs over calls of a C library, which are parameters.
pub mod Streams
use wispy_vm.Device.{Device, Result, ok, err}
use wispy_vm.Prelude.{ℕ, Option, none, some, List, [], ◌∷◌, ◌==◌, if◌then◌else◌}

-- `enum LibcError`
pub data LibcError : Type 0 where
  stdin stdout stderr : LibcError

-- `trait Read` and `trait Write`
pub record Read (I X : Type 0) : Type 0 where
  pub read : I → I × Result X (Option ℕ)

pub record Write (O X : Type 0) : Type 0 where
  pub write : ℕ → O → O × Result X (Unit {0})

-- `struct ReadWriteDevice`
pub record ReadWriteDevice (I O E : Type 0) : Type 0 where
  pub input : I
  pub output : O
  pub error : E

-- `map_err`
abbrev pub map_err : {X A : Type 0} → LibcError → Result X A → Result LibcError A
map_err e (ok a) = ok a
map_err e (err _) = err e

module _ {I O E X Y Z : Type 0} (reader : Read I X) (writer : Write O Y)
    (error_writer : Write E Z) where
  -- `impl Device for ReadWriteDevice`
  unfoldable pub read_write_device : Device (ReadWriteDevice I O E) LibcError
  read_write_device = record {
    read = λ d.
        let (input, result) = reader.read d.input in
        (record d { input = input }, map_err LibcError.stdin result);
    write = λ byte d.
        let (output, result) = writer.write byte d.output in
        (record d { output = output }, map_err LibcError.stdout result);
    write_error = λ byte d.
        let (error, result) = error_writer.write byte d.error in
        (record d { error = error }, map_err LibcError.stderr result);
  }
