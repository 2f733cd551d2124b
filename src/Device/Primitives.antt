-- ===== src/Device/Primitives.antt =====
-- device/src/primitive_set.rs: the primitives of input and output, over any device.
pub mod Output
mod Tests
use wispy_vm.Prelude.{ℕ, zero, suc, ◌%◌, Bool, false, Option, none, some}
use wispy_vm.Vm.Error
use wispy_vm.Vm.ValueInner.{from_i64, to_i64}
use wispy_vm.Vm.Memory.{Memory, M}
use wispy_vm.Vm.Memory.Stack.{pop, push, push_boolean}
use wispy_vm.Primitive.{Attempt, Operation, done, failed, ◌>>=◌, ◌>>◌, fail, on_memory}
use wispy_vm.Device.{Device, Result, ok, err}

-- `enum PrimitiveError`
pub data PrimitiveError : Type 0 where
  read_input : PrimitiveError
  vm : Error.Error → PrimitiveError
  write_error : PrimitiveError
  write_output : PrimitiveError

unfoldable pub is_critical : PrimitiveError → Bool
unfolding Error.is_critical
is_critical (vm e) = Error.is_critical e
is_critical _ = false

-- A byte is a number, and the end of the input is false.
unfoldable pub push_byte : Option ℕ → M (Unit {0})
push_byte none = push_boolean false
push_byte (some byte) = push (from_i64 byte)

module _ {S E : Type 0} where
  abbrev pub after_device :
      {A : Type 0} → PrimitiveError → S × Result E A → Memory → S × Attempt PrimitiveError A
  after_device e (s, ok a) m = (s, done a m)
  after_device e (s, err _) m = (s, failed e m)

  -- An operation of a device, whose error is turned into `e`.
  abbrev pub on_device :
      {A : Type 0} → PrimitiveError → (S → S × Result E A) → Operation PrimitiveError S A
  on_device e f s m = after_device e (f s) m

  module _ (device : Device S E) where
    unfoldable pub read_primitive : Operation PrimitiveError S (Unit {0})
    read_primitive = do
      byte ← on_device PrimitiveError.read_input device.read
      on_memory PrimitiveError.vm (push_byte byte)

    unfoldable pub write_primitive : Operation PrimitiveError S (Unit {0})
    write_primitive = do
      v ← on_memory PrimitiveError.vm pop
      on_device PrimitiveError.write_output (device.write (to_i64 v % 256))
      on_memory PrimitiveError.vm (push_boolean false)

    unfoldable pub write_error_primitive : Operation PrimitiveError S (Unit {0})
    write_error_primitive = do
      v ← on_memory PrimitiveError.vm pop
      on_device PrimitiveError.write_error (device.write_error (to_i64 v % 256))
      on_memory PrimitiveError.vm (push_boolean false)

    -- `operate` of `DevicePrimitiveSet`: the primitives in the order of `Primitive`.
    unfoldable pub operate : ℕ → Operation PrimitiveError S (Unit {0})
    operate zero = read_primitive
    operate (suc zero) = write_primitive
    operate (suc (suc zero)) = write_error_primitive
    operate (suc (suc (suc p))) = fail (PrimitiveError.vm Error.illegal_primitive)
