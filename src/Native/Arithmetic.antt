-- ===== src/Native/Arithmetic.antt =====
-- native/src/arithmetic.rs: the arithmetic primitive.
pub mod Quotient
mod Tests
use wispy_vm.Prelude.{ℕ, zero, suc, Option, none, some}
use wispy_vm.Vm.Error.{Error}
use wispy_vm.Vm.Memory.{M, Outcome, ok, stuck, ◌>>=◌, ◌>>◌, fail}
use wispy_vm.Vm.Memory.Stack.{pop, push}
use wispy_vm.Vm.Number.{sub, div, rem}
use wispy_vm.Vm.Value.{Number}

-- `(x - x % y) / y`; `none` is the panic of a division by zero.
unfoldable pub quotient : Number → Number → Option Number
quotient x y = elim (rem x y) [ none ↦ none | some r ↦ div (sub x r) y ]

-- `stuck` stands for that panic.
unfoldable pub or_panic : {A : Type 0} → Option A → M A
or_panic none m = stuck
or_panic (some a) m = ok a m

unfoldable pub quotient_primitive : M (Unit {0})
unfolding quotient or_panic
quotient_primitive = do y ← pop; x ← pop; q ← or_panic (quotient x y); push q

-- `operate` of `ArithmeticPrimitiveSet`
unfoldable pub operate_arithmetic : ℕ → M (Unit {0})
operate_arithmetic zero = quotient_primitive
operate_arithmetic (suc p) = fail Error.illegal_primitive
