-- ===== src/Inexact.antt =====
-- inexact/src/primitive_set.rs: the functions of floating-point numbers, which are parameters.
use wispy_vm.Prelude.{ℕ, Bool, ◌==◌, if◌then◌else◌}
use wispy_vm.Vm.Error.{Error}
use wispy_vm.Vm.Memory.{M, fail}
use wispy_vm.Vm.Memory.Stack.{boolean, operate_unary, operate_top}
use wispy_vm.Vm.Value.{Number}

-- The numbers `F` of 64 bits with their functions, and the conversions from and to Scheme numbers.
pub record Floats (F : Type 0) : Type 0 where
  pub to_f64 : Number → F
  pub from_f64 : F → Number
  pub exp : F → F
  pub log : F → F
  pub sqrt : F → F
  pub cos : F → F
  pub sin : F → F
  pub tan : F → F
  pub acos : F → F
  pub asin : F → F
  pub atan : F → F
  pub is_infinite : F → Bool
  pub is_nan : F → Bool

module _ {F : Type 0} (floats : Floats F) where
  unfoldable pub unary : (F → F) → M (Unit {0})
  unary calculate = operate_unary (λ x. floats.from_f64 (calculate (floats.to_f64 x)))

  unfoldable pub condition : (F → Bool) → M (Unit {0})
  condition calculate = operate_top (λ x. boolean (calculate (floats.to_f64 x)))

  -- `operate` of `InexactPrimitiveSet`: the primitives in the order of `Primitive`.
  unfoldable pub operate_inexact : ℕ → M (Unit {0})
  unfolding unary condition
  operate_inexact primitive =
      if primitive == 0
      then unary floats.exp
      else if primitive == 1
      then unary floats.log
      else if primitive == 2
      then condition floats.is_infinite
      else if primitive == 3
      then condition floats.is_nan
      else if primitive == 4
      then unary floats.sqrt
      else if primitive == 5
      then unary floats.cos
      else if primitive == 6
      then unary floats.sin
      else if primitive == 7
      then unary floats.tan
      else if primitive == 8
      then unary floats.acos
      else if primitive == 9
      then unary floats.asin
      else if primitive == 10
      then unary floats.atan
      else fail Error.illegal_primitive
