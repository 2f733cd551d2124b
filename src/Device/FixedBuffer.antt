-- ===== src/Device/FixedBuffer.antt =====
-- device/src/device/fixed_buffer.rs: a device over an input and two buffers of fixed sizes.
pub mod Output
mod Tests
use wispy_vm.Prelude.{ℕ, ◌+◌, Option, none, some, List, get_elem?, take, replicate, set as set_at}
use wispy_vm.Device.{BufferError, Device, Result, ok, err}

-- `struct FixedBufferDevice`. Its fields `output` and `error` are the whole buffers.
pub record FixedBufferDevice : Type 0 where
  pub input : List ℕ
  pub output_buffer : List ℕ
  pub error_buffer : List ℕ
  pub input_index : ℕ
  pub output_index : ℕ
  pub error_index : ℕ

-- The sizes `o` and `e` are the parameters `O` and `E`.
unfoldable pub new : (o e : ℕ) → List ℕ → FixedBufferDevice
new o e input = record {
  input = input;
  output_buffer = replicate o 0;
  error_buffer = replicate e 0;
  input_index = 0;
  output_index = 0;
  error_index = 0;
}

unfoldable pub output : FixedBufferDevice → List ℕ
output d = take d.output_index d.output_buffer

unfoldable pub error : FixedBufferDevice → List ℕ
error d = take d.error_index d.error_buffer

unfoldable pub read : FixedBufferDevice → Result BufferError (Option ℕ × FixedBufferDevice)
read d = elim (get_elem? d.input d.input_index) [
  | none ↦ ok (none, d)
  | some byte ↦ ok (some byte, record d { input_index = d.input_index + 1 })
]

unfoldable pub write : ℕ → FixedBufferDevice → Result BufferError FixedBufferDevice
write byte d = elim (get_elem? d.output_buffer d.output_index) [
  | none ↦ err BufferError.write
  | some _ ↦ ok (record d {
    output_buffer = set_at d.output_buffer d.output_index byte;
    output_index = d.output_index + 1;
  })
]

unfoldable pub write_error : ℕ → FixedBufferDevice → Result BufferError FixedBufferDevice
write_error byte d = elim (get_elem? d.error_buffer d.error_index) [
  | none ↦ err BufferError.write
  | some _ ↦ ok (record d {
    error_buffer = set_at d.error_buffer d.error_index byte;
    error_index = d.error_index + 1;
  })
]

-- `impl Device`: an operation that fails leaves the device as it was.
abbrev pub with_state :
    {A : Type 0}
    → FixedBufferDevice
    → Result BufferError (A × FixedBufferDevice)
    → FixedBufferDevice × Result BufferError A
with_state d (ok (a, d')) = (d', ok a)
with_state d (err e) = (d, err e)

abbrev pub after :
    FixedBufferDevice
    → Result BufferError FixedBufferDevice
    → FixedBufferDevice × Result BufferError (Unit {0})
after d (ok d') = (d', ok tt)
after d (err e) = (d, err e)

unfoldable pub device : Device FixedBufferDevice BufferError
unfolding read write write_error
device = record {
  read = λ d. with_state d (read d);
  write = λ byte d. after d (write byte d);
  write_error = λ byte d. after d (write_error byte d);
}
