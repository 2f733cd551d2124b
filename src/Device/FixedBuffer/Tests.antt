-- ===== src/Device/FixedBuffer/Tests.antt =====
-- The unit tests of device/src/device/fixed_buffer.rs, and its theorems at a device for two bytes.
use wispy_vm.Prelude.{◌+◌, ◌≤◌, ◌<◌, ◌≡◌, ◌⊎◌, refl, [], ◌∷◌, ◌++◌, length, drop}
use wispy_vm.Device.{BufferError, ok, err}
use wispy_vm.Device.FixedBuffer.{FixedBufferDevice, new, output, error, write, write_error}
use wispy_vm.Device.FixedBuffer.Output.{output-write}

full_output : write 42 (new 0 1 []) ≡ err BufferError.write
unfolding write new
full_output = refl

full_error : write_error 42 (new 1 0 []) ≡ err BufferError.write
unfolding write_error new
full_error = refl

abbrev blank : FixedBufferDevice
blank = record {
  input = [];
  output_buffer = 0 ∷ 0 ∷ [];
  error_buffer = [];
  input_index = 0;
  output_index = 0;
  error_index = 0;
}

output-write_example :
    ((length blank.output_buffer ≤ 0) × (write 42 blank ≡ err BufferError.write))
    ⊎ ((0 < length blank.output_buffer)
        × ((d' : FixedBufferDevice) × (write 42 blank ≡ ok d')
            × (output d' ≡ output blank ++ (42 ∷ []))
            × (error d' ≡ error blank)
            × (d'.input_index ≡ 0)
            × (d'.output_index ≡ 0 + 1)
            × (length d'.output_buffer ≡ length blank.output_buffer)
            × (drop 1 d'.output_buffer ≡ drop 1 blank.output_buffer)
            × (d'.input ≡ blank.input)
            × (d'.error_buffer ≡ blank.error_buffer)
            × (d'.error_index ≡ blank.error_index)))
output-write_example = output-write 42 blank
