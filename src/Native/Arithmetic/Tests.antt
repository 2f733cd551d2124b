-- ===== src/Native/Arithmetic/Tests.antt =====
-- The quotient of integers of different signs. The pattern of -7 is 2 ^ 64 - 7.
use wispy_vm.Native.Arithmetic.{quotient}
use wispy_vm.Native.Arithmetic.Quotient.{quotient-div}
use wispy_vm.Prelude.{◌-◌, ◌^◌, ◌≡◌, refl, some, arith}
use wispy_vm.Vm.Number.{div, rem, sub}
use wispy_vm.Vm.ValueInner.{from_i64}

minus_seven_by_two : quotient (from_i64 (2 ^ 64 - 7)) (from_i64 2) ≡ some (from_i64 (2 ^ 64 - 3))
unfolding quotient from_i64 div rem sub
minus_seven_by_two = refl

quotient-div_example :
    quotient (from_i64 (2 ^ 64 - 7)) (from_i64 2) ≡ div (from_i64 (2 ^ 64 - 7)) (from_i64 2)
quotient-div_example = quotient-div (2 ^ 64 - 7) 2 (ground arith) (ground arith) (λ e. omega arith)
