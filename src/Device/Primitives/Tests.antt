-- ===== src/Device/Primitives/Tests.antt =====
-- The theorem of device/src/primitive_set.rs at a small memory and a buffer for two bytes.
use wispy_vm.Prelude.{◌≡◌, [], ◌∷◌, ◌++◌, arith}
use wispy_vm.Vm.ValueInner.{from_i64}
use wispy_vm.Vm.Memory.Stack.{push}
use wispy_vm.Vm.Memory.Sample.{cycle, cycle-IsSound, cycle_room}
use wispy_vm.Primitive.{◌>>◌, on_memory}
use wispy_vm.Device.FixedBuffer.{FixedBufferDevice, output, device}
use wispy_vm.Device.Primitives.{PrimitiveError, operate}
use wispy_vm.Device.Primitives.Output.{output-write_primitive}

abbrev two_bytes : FixedBufferDevice
two_bytes = record {
  input = [];
  output_buffer = 0 ∷ 0 ∷ [];
  error_buffer = [];
  input_index = 0;
  output_index = 0;
  error_index = 0;
}

output-write_primitive_example :
    let (d', _) =
      (on_memory PrimitiveError.vm (push (from_i64 42)) >> operate device 1) two_bytes cycle in
    output d' ≡ output two_bytes ++ (42 ∷ [])
output-write_primitive_example =
    output-write_primitive cycle two_bytes 42 cycle-IsSound cycle_room (omega arith) (omega arith)
