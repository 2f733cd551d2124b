-- ===== src/Device/Primitives/Output.antt =====
-- A number on the stack that device/src/primitive_set.rs writes to a fixed buffer.
use native.Mathlib.Nat.{mod-eq_of_lt}
use wispy_vm.Prelude.{
  ℕ, ◌+◌, ◌%◌, ◌<◌, ◌≡◌, refl, ap, ◌∙◌, [], ◌∷◌, ◌++◌, length, false, arith, inl, inr,
}
use wispy_vm.Vm.ValueInner.{IsWord, from_i64, to_i64, to_i64-from_i64, is_cons-from_i64}
use wispy_vm.Vm.Value
use wispy_vm.Vm.Cons
use wispy_vm.Vm.Value.{Value}
use wispy_vm.Vm.Memory.{Memory, Outcome, space_size}
use wispy_vm.Vm.Memory.Gc.Relocate.{number, is_moved}
use wispy_vm.Vm.Memory.Gc.Sound.{IsSound}
use wispy_vm.Vm.Memory.Gc.Grow.{IsHeld}
use wispy_vm.Vm.Memory.Stack.{push, pop, push_boolean}
use wispy_vm.Vm.Memory.Stack.Sound.{push-run, pop-run}
use wispy_vm.Primitive.{◌>>◌, operate_then, on_memory}
use wispy_vm.Device.{Device, ok}
use wispy_vm.Device.FixedBuffer.{FixedBufferDevice, output, write, device}
use wispy_vm.Device.FixedBuffer.Output.{output-write}
use wispy_vm.Device.Primitives.{PrimitiveError, after_device, write_primitive, operate}

from_i64-IsWord : (byte : ℕ) → IsWord (from_i64 byte)
unfolding from_i64
from_i64-IsWord byte = omega arith

from_i64-IsHeld : (m : Memory) (byte : ℕ) → IsHeld m (from_i64 byte)
from_i64-IsHeld m byte = record {
  word = from_i64-IsWord byte;
  target = number (is_cons-from_i64 byte);
}

from_i64-not_moved : (byte : ℕ) → is_moved (from_i64 byte) ≡ false
unfolding Value.eq Cons.never
from_i64-not_moved byte = rw (is_cons-from_i64 byte) refl

device-write :
    (byte : ℕ) (d d' : FixedBufferDevice) → write byte d ≡ ok d' → device.write byte d ≡ (d', ok tt)
unfolding device
device-write byte d d' run = rw run refl

-- The primitive `write`, where the value is popped and the device takes the byte.
write_primitive-pop :
    {S E : Type 0} (dev : Device S E) (s s' : S) (m m' : Memory) (v : Value)
    → pop m ≡ Outcome.ok v m'
    → dev.write (to_i64 v % 256) s ≡ (s', ok tt)
    → write_primitive dev s m ≡ on_memory PrimitiveError.vm (push_boolean false) s' m'
unfolding write_primitive
write_primitive-pop dev s s' m m' v e e' = rw e (
    ap
      (λ p.
        operate_then (after_device PrimitiveError.write_output p m')
          (λ _. on_memory PrimitiveError.vm (push_boolean false)))
      e')

-- Where a sound memory has room for a cell and more, and the buffer for a byte, the primitive
-- `write` of a byte that is pushed puts the byte behind the output.
pub output-write_primitive :
    (m : Memory) (d : FixedBufferDevice) (byte : ℕ)
    → IsSound m
    → m.allocation_index + 2 < space_size m
    → byte < 256
    → d.output_index < length d.output_buffer
    → let (d', _) = (on_memory PrimitiveError.vm (push (from_i64 byte)) >> operate device 1) d m in
      output d' ≡ output d ++ (byte ∷ [])
unfolding operate
output-write_primitive m d byte s room small free = elim (output-write byte d) [
  | inl (full, _) ↦ absurd (omega arith)
  | inr (_, (d', run, more, _, _, _, _, _, _, _, _)) ↦
      let held = from_i64-IsHeld m byte in
      let fresh = from_i64-not_moved byte in
      let value : to_i64 (from_i64 byte) % 256 ≡ byte =
        ap (λ n. n % 256) (to_i64-from_i64 byte (omega arith)) ∙ mod-eq_of_lt small in
      let wrote : device.write (to_i64 (from_i64 byte) % 256) d ≡ (d', ok tt) =
        ap (λ n. device.write n d) value ∙ device-write byte d d' run in
      let rest =
        write_primitive-pop device d d' _ _ (from_i64 byte)
          (pop-run m s (from_i64 byte) held fresh room) wrote in
      rw (push-run m s (from_i64 byte) held fresh room, rest) more
]
