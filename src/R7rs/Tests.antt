-- ===== src/R7rs/Tests.antt =====
-- The primitives over parts that do nothing.
use wispy_vm.Device.{BufferError}
use wispy_vm.Device.Void.{void_device}
use wispy_vm.File.{FileError}
use wispy_vm.File.Void.{void_file_system}
use wispy_vm.Inexact.{Floats}
use wispy_vm.Prelude.{ℕ, List, [], ◌≡◌, false, arith}
use wispy_vm.Primitive.{failed}
use wispy_vm.Process.{void_context}
use wispy_vm.R7rs.{SmallPrimitiveSet, Parts, vm, operate}
use wispy_vm.R7rs.Identifiers.{Primitive}
use wispy_vm.R7rs.Illegal.{IsIllegal, operate-illegal}
use wispy_vm.Time.{void_clock}
use wispy_vm.Vm.Error
use wispy_vm.Vm.Memory.Stack.{blank}

abbrev constant_floats : Floats ℕ
constant_floats = record {
  to_f64 = λ n. n;
  from_f64 = λ x. x;
  exp = λ x. 1;
  log = λ x. 1;
  sqrt = λ x. 1;
  cos = λ x. 1;
  sin = λ x. 1;
  tan = λ x. 1;
  acos = λ x. 1;
  asin = λ x. 1;
  atan = λ x. 1;
  is_infinite = λ x. false;
  is_nan = λ x. false;
}

abbrev void_parts : Parts (Unit {0}) BufferError (Unit {0}) (List ℕ) FileError (Unit {0}) ℕ
void_parts = record {
  device = void_device;
  file = void_file_system;
  process_context = void_context;
  clock = void_clock;
  floats = constant_floats;
  power = λ a b. a;
}

abbrev nothing : SmallPrimitiveSet (Unit {0}) (Unit {0}) (Unit {0})
nothing = record { device = tt; file = tt; time = tt }

seventeen-IsIllegal : IsIllegal 17
seventeen-IsIllegal Primitive.rib e = absurd (omega (arith, e))
seventeen-IsIllegal _ e = absurd (omega (arith, e))

operate-illegal_example :
    operate 9 void_parts 17 nothing (blank [])
    ≡ (nothing, failed (vm Error.illegal_primitive) (blank []))
operate-illegal_example = operate-illegal 17 seventeen-IsIllegal 9 void_parts nothing (blank [])
