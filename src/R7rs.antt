-- ===== src/R7rs.antt =====
-- The crate r7rs: r7rs/src/small/error.rs, and the primitive set of small.rs over a device, a file
-- system, a process context, a clock and the functions of floating-point numbers.
pub mod Core
pub mod Identifiers
pub mod Illegal
mod Tests
use wispy_vm.Device.{Device}
use wispy_vm.Device.Primitives as DevicePrimitives
use wispy_vm.File.{FileSystem}
use wispy_vm.File.Primitives as FilePrimitives
use wispy_vm.Inexact.{Floats, operate_inexact}
use wispy_vm.Native.Arithmetic.{operate_arithmetic}
use wispy_vm.Native.Equal.{operate_equal}
use wispy_vm.Native.List.{operate_list}
use wispy_vm.Native.TypeCheck.{operate_type_check}
use wispy_vm.Prelude.{ℕ, ◌-◌, ◌≤◌, Bool, true, false, ◌&&◌, ◌||◌, ◌==◌, ltb, leb, if◌then◌else◌}
use wispy_vm.Primitive.{Attempt, Operation, done, failed, stuck, fail, on_memory}
use wispy_vm.Process.{ProcessContext, operate_process}
use wispy_vm.R7rs.Core.{operate_core}
use wispy_vm.R7rs.Identifiers.{Primitive, identifier}
use wispy_vm.Time.{Clock, operate_time}
use wispy_vm.Time as Time
use wispy_vm.Vm.Error
use wispy_vm.Vm.Memory.{Memory}
use wispy_vm.Vm.Value.{Number}

-- `enum Error`
pub data SmallError : Type 0 where
  device : DevicePrimitives.PrimitiveError → SmallError
  file : FilePrimitives.PrimitiveError → SmallError
  halt : SmallError
  time : Time.PrimitiveError → SmallError
  vm : Error.Error → SmallError

unfoldable pub is_critical : SmallError → Bool
unfolding DevicePrimitives.is_critical FilePrimitives.is_critical Time.is_critical Error.is_critical
is_critical (device e) = DevicePrimitives.is_critical e
is_critical (file e) = FilePrimitives.is_critical e
is_critical halt = true
is_critical (time e) = Time.is_critical e
is_critical (vm e) = Error.is_critical e

-- The states of the parts of `SmallPrimitiveSet` that have one.
pub record SmallPrimitiveSet (D F C : Type 0) : Type 0 where
  pub device : D
  pub file : F
  pub time : C

-- The parts themselves, with the power of numbers.
pub record Parts (D G F P E C X : Type 0) : Type 0 where
  pub device : Device D G
  pub file : FileSystem F P E
  pub process_context : ProcessContext
  pub clock : Clock C
  pub floats : Floats X
  pub power : Number → Number → Number

-- The error of a part is turned into one of the set.
abbrev pub wrap : {E A : Type 0} → (E → SmallError) → Attempt E A → Attempt SmallError A
wrap f (done a m) = done a m
wrap f (failed e m) = failed (f e) m
wrap f stuck = stuck

abbrev pub between : ℕ → ℕ → ℕ → Bool
between first last primitive = leb first primitive && leb primitive last

module _ {D G F P E C X : Type 0} (fuel : ℕ) (parts : Parts D G F P E C X) where
  abbrev pub Op : Type 0
  Op = Operation SmallError (SmallPrimitiveSet D F C) (Unit {0})

  unfoldable pub operate_device : ℕ → Op
  operate_device primitive s m =
      let (d, out) = DevicePrimitives.operate parts.device primitive s.device m in
      (record s { device = d }, wrap device out)

  unfoldable pub operate_file : ℕ → Op
  operate_file primitive s m =
      let (f, out) = FilePrimitives.operate parts.file primitive s.file m in
      (record s { file = f }, wrap file out)

  unfoldable pub operate_clock : ℕ → Op
  operate_clock primitive s m =
      let (c, out) = operate_time parts.clock primitive s.time m in
      (record s { time = c }, wrap time out)

  -- The arms of `operate` for the other primitive sets.
  unfoldable pub operate_sets : ℕ → Op
  unfolding operate_device operate_file operate_clock
  operate_sets primitive =
      if between (identifier Primitive.null) (identifier Primitive.pair) primitive
      then on_memory vm (operate_type_check (primitive - identifier Primitive.null))
      else if between (identifier Primitive.assq) (identifier Primitive.length) primitive
      then on_memory vm (operate_list fuel (primitive - identifier Primitive.assq))
      else if between (identifier Primitive.eqv) (identifier Primitive.equal_inner) primitive
      then on_memory vm (operate_equal (primitive - identifier Primitive.eqv))
      else if primitive == identifier Primitive.quotient
      then on_memory vm (operate_arithmetic (primitive - identifier Primitive.quotient))
      else if between (identifier Primitive.read) (identifier Primitive.write_error) primitive
      then operate_device (primitive - identifier Primitive.read)
      else if between (identifier Primitive.open_file) (identifier Primitive.flush_file) primitive
      then operate_file (primitive - identifier Primitive.open_file)
      else if between (identifier Primitive.command_line)
          (identifier Primitive.environment_variables) primitive
      then on_memory vm
          (operate_process parts.process_context (primitive - identifier Primitive.command_line))
      else if between (identifier Primitive.current_jiffy) (identifier Primitive.jiffies_per_second)
          primitive
      then operate_clock (primitive - identifier Primitive.current_jiffy)
      else if between (identifier Primitive.exponentiation) (identifier Primitive.atan) primitive
      then on_memory vm
          (operate_inexact parts.floats (primitive - identifier Primitive.exponentiation))
      else fail (vm Error.illegal_primitive)

  -- `operate` of `SmallPrimitiveSet`
  unfoldable pub operate : ℕ → Op
  unfolding operate_sets
  operate primitive =
      if leb primitive (identifier Primitive.expt)
      then on_memory vm (operate_core parts.power primitive)
      else if primitive == identifier Primitive.halt
      then fail halt
      else operate_sets primitive
