-- ===== src/Engine.antt =====
-- The crate engine: engine/src/error.rs, the primitives of primitive_set.rs and the engine of engine.rs,
-- which puts the functions of the host beside the primitives of R7RS.
use wispy_vm.Dynamic as Dynamic
use wispy_vm.Dynamic.{DynamicError, DynamicPrimitiveSet, SchemeType, AnyFn, Host, register_type}
use wispy_vm.Dynamic.Primitives as DynamicPrimitives
use wispy_vm.Prelude.{ℕ, ◌-◌, Bool, List, leb, if◌then◌else◌}
use wispy_vm.Primitive.{Attempt, Operation, done, failed, stuck}
use wispy_vm.R7rs as R7rs
use wispy_vm.R7rs.{SmallError, SmallPrimitiveSet, Parts}
use wispy_vm.Vm.Error
use wispy_vm.Vm.Machine as Machine
use wispy_vm.Vm.Value.{Number}

-- `enum EngineError`, over the errors `X` of the functions.
pub data EngineError (X : Type 0) : Type 0 where
  dynamic : DynamicError X → EngineError X
  small : SmallError → EngineError X
  vm : Error.Error → EngineError X

unfoldable pub is_critical : {X : Type 0} → EngineError X → Bool
unfolding Dynamic.is_critical R7rs.is_critical Error.is_critical
is_critical (dynamic e) = Dynamic.is_critical e
is_critical (small e) = R7rs.is_critical e
is_critical (vm e) = Error.is_critical e

-- `?`, which turns an error of a part into one of the engine.
abbrev pub wrap : {E E' A : Type 0} → (E → E') → Attempt E A → Attempt E' A
wrap f (done a m) = done a m
wrap f (failed e m) = failed (f e) m
wrap f stuck = stuck

abbrev pub dynamic_primitive_offset : ℕ
dynamic_primitive_offset = 1000

-- `struct EnginePrimitiveSet`: the states of its two parts.
pub record EnginePrimitiveSet (D F C X T V W : Type 0) : Type 0 where
  pub small : SmallPrimitiveSet D F C
  pub dynamic : DynamicPrimitiveSet X T V W

-- The device, the clock and the numbers of the parts of R7RS are parameters.
module _ {D G F P E C Y X T V W : Type 0} (fuel : ℕ) (parts : Parts D G F P E C Y)
    (host : Host X T V W) where
  abbrev pub State : Type 0
  State = EnginePrimitiveSet D F C X T V W

  abbrev pub Op : Type 0
  Op = Operation (EngineError X) State (Unit {0})

  unfoldable pub operate_dynamic : ℕ → Op
  operate_dynamic primitive s m =
      let (d, out) = DynamicPrimitives.operate host primitive s.dynamic m in
      (record s { dynamic = d }, wrap dynamic out)

  unfoldable pub operate_small : ℕ → Op
  operate_small primitive s m =
      let (d, out) = R7rs.operate fuel parts primitive s.small m in
      (record s { small = d }, wrap small out)

  -- `operate` of `EnginePrimitiveSet`
  unfoldable pub operate : ℕ → Op
  unfolding operate_dynamic operate_small
  operate primitive =
      if leb dynamic_primitive_offset primitive
      then operate_dynamic (primitive - dynamic_primitive_offset)
      else operate_small primitive

  -- `Engine::run`, in the machine of the engine. `message` is how an error is displayed.
  unfoldable pub run : (EngineError X → List ℕ) → (ℕ → Number) → (attempts rounds : ℕ) → List ℕ → Op
  run message float attempts rounds bytecode =
      Machine.run operate vm is_critical message fuel float attempts rounds bytecode

-- `Engine::register_type`
unfoldable pub register_engine_type :
    {D F C X T V W : Type 0}
    → SchemeType X T V
    → EnginePrimitiveSet D F C X T V W
    → EnginePrimitiveSet D F C X T V W
register_engine_type ty s = record s { dynamic = register_type ty s.dynamic }

-- `new`, with the types that the dynamic primitives register.
unfoldable pub new_set :
    {D F C X T V W : Type 0}
    → List (SchemeType X T V)
    → List (List ℕ × AnyFn X T V W)
    → SmallPrimitiveSet D F C
    → W
    → EnginePrimitiveSet D F C X T V W
new_set types functions s w = record { small = s; dynamic = Dynamic.new types functions w }
