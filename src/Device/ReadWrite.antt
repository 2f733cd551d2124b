-- ===== src/Device/ReadWrite.antt =====
-- device/src/device/read_write.rs: a device over a reader and two writers, which are parameters. Their
-- errors are `X`, those of the standard library.
use wispy_vm.Device.{Device, Result}
use wispy_vm.Prelude.{ℕ, Option}

-- `Read::read` into a buffer of one byte: the byte, none at the end, or an error.
pub record Reader (I X : Type 0) : Type 0 where
  pub read : I → I × Result X (Option ℕ)

-- `Write::write_all` of one byte.
pub record Writer (O X : Type 0) : Type 0 where
  pub write_all : ℕ → O → O × Result X (Unit {0})

-- `struct ReadWriteDevice`
pub record ReadWriteDevice (I O E : Type 0) : Type 0 where
  pub input : I
  pub output : O
  pub error : E

module _ {I O E X : Type 0} (reader : Reader I X) (writer : Writer O X)
    (error_writer : Writer E X) where
  -- `impl Device for ReadWriteDevice`
  unfoldable pub read_write_device : Device (ReadWriteDevice I O E) X
  read_write_device = record {
    read = λ d. let (input, result) = reader.read d.input in (record d { input = input }, result);
    write = λ byte d.
        let (output, result) = writer.write_all byte d.output in
        (record d { output = output }, result);
    write_error = λ byte d.
        let (error, result) = error_writer.write_all byte d.error in
        (record d { error = error }, result);
  }
