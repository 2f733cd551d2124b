-- ===== src/Device/Void.antt =====
-- device/src/device/void.rs: the device that has no input and forgets its output.
use wispy_vm.Device.{BufferError, Device, ok}
use wispy_vm.Prelude.{none}

-- `impl Device for VoidDevice`
unfoldable pub void_device : Device (Unit {0}) BufferError
void_device = record {
  read = λ s. (s, ok none);
  write = λ byte s. (s, ok tt);
  write_error = λ byte s. (s, ok tt);
}
