-- ===== src/Device/Stdio.antt =====
-- device/src/device/stdio.rs: the device of the standard streams of a process, which are parameters.
use wispy_vm.Device.{Device}
use wispy_vm.Device.ReadWrite.{Reader, Writer, ReadWriteDevice, read_write_device}

-- `struct StdioDevice`
pub record StdioDevice (I O E : Type 0) : Type 0 where
  pub device : ReadWriteDevice I O E

abbrev within : {I O E A : Type 0} → ReadWriteDevice I O E × A → StdioDevice I O E × A
within (d, a) = (record { device = d }, a)

-- `new`
unfoldable pub new : {I O E : Type 0} → I → O → E → StdioDevice I O E
new stdin stdout stderr = record {
  device = record { input = stdin; output = stdout; error = stderr };
}

module _ {I O E X : Type 0} (stdin : Reader I X) (stdout : Writer O X) (stderr : Writer E X) where
  -- `impl Device for StdioDevice`
  unfoldable pub stdio_device : Device (StdioDevice I O E) X
  unfolding read_write_device
  stdio_device =
      let inner : Device (ReadWriteDevice I O E) X = read_write_device stdin stdout stderr in
      record {
        read = λ d. within (inner.read d.device);
        write = λ byte d. within (inner.write byte d.device);
        write_error = λ byte d. within (inner.write_error byte d.device);
      }
