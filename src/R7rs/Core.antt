-- ===== src/R7rs/Core.antt =====
-- r7rs/src/small.rs: the primitives that the set implements itself.
use wispy_vm.Native.Arithmetic.{or_panic}
use wispy_vm.Prelude.{ℕ, ◌+◌, ◌%◌, ◌^◌, Bool, Option, none, some, ltb, ◌==◌, if◌then◌else◌}
use wispy_vm.R7rs.Identifiers.{Primitive, identifier}
use wispy_vm.Vm.Cons
use wispy_vm.Vm.Error.{Error}
use wispy_vm.Vm.Memory.{M, ◌>>=◌, ◌>>◌, pure, fail, gets, car, cdr, set_car, set_cdr}
use wispy_vm.Vm.Memory.Gc.{allocate}
use wispy_vm.Vm.Memory.Stack.{boolean, push, pop, push_boolean, operate_top, operate_binary}
use wispy_vm.Vm.Number.{add, sub, mul, div, rem}
use wispy_vm.Vm.Tags.{procedure_type}
use wispy_vm.Vm.Value
use wispy_vm.Vm.Value.{Value, Number, zero_value}
use wispy_vm.Vm.ValueInner.{is_cons, from_i64, to_i64}

unfoldable pub rib : Value → Value → ℕ → M (Unit {0})
rib a d tag = do c ← allocate a (Value.set_tag d tag); push c

-- `as Tag` keeps 16 bits.
unfoldable pub rib_primitive : M (Unit {0})
unfolding rib
rib_primitive = do tag ← pop; d ← pop; a ← pop; rib a d (to_i64 tag % 2 ^ 16)

unfoldable pub close_primitive : M (Unit {0})
unfolding rib
close_primitive = do
  closure ← pop
  code ← car closure
  stack ← gets (λ m. m.stack)
  rib code stack procedure_type

unfoldable pub unbind_primitive : M (Unit {0})
unbind_primitive = do x ← pop; _ ← pop; push x

-- The order of numbers is that of their words as signed integers.
unfoldable pub less_than : Number → Number → Bool
less_than x y = ltb ((x + 2 ^ 63) % 2 ^ 64) ((y + 2 ^ 63) % 2 ^ 64)

-- `operate_comparison` with a test of numbers, and the arm of `EQUAL` with one of values.
unfoldable pub operate_comparison : (Value → Value → Bool) → M (Unit {0})
operate_comparison operate = do y ← pop; x ← pop; push_boolean (operate x y)

unfoldable pub set_field : (Value → Value → M (Unit {0})) → M (Unit {0})
set_field set = do y ← pop; x ← pop; set x y; push y

-- The tag of the cons in a field, or the number zero.
unfoldable pub tag_of : Value → Value
tag_of v = elim (Value.to_cons v) [ some c ↦ from_i64 (Cons.tag c) | none ↦ zero_value ]

unfoldable pub tag_primitive : (Value → M Value) → M (Unit {0})
unfolding tag_of
tag_primitive field = operate_top (λ v. field v >>= λ w. pure (tag_of w))

-- `operate_binary` with an operation that panics.
unfoldable pub operate_division : (Number → Number → Option Number) → M (Unit {0})
operate_division operate = do y ← pop; x ← pop; q ← or_panic (operate x y); push q

-- The primitives in the order of `Primitive`, up to the power.
unfoldable pub operate_core : (Number → Number → Number) → ℕ → M (Unit {0})
unfolding rib_primitive close_primitive unbind_primitive operate_comparison set_field tag_primitive
    operate_division
operate_core power primitive =
    if primitive == identifier Primitive.rib
    then rib_primitive
    else if primitive == identifier Primitive.close
    then close_primitive
    else if primitive == identifier Primitive.unbind
    then unbind_primitive
    else if primitive == identifier Primitive.is_rib
    then operate_top (λ v. boolean (is_cons v))
    else if primitive == identifier Primitive.car
    then operate_top car
    else if primitive == identifier Primitive.cdr
    then operate_top cdr
    else if primitive == identifier Primitive.tag
    then tag_primitive cdr
    else if primitive == identifier Primitive.set_car
    then set_field set_car
    else if primitive == identifier Primitive.set_cdr
    then set_field set_cdr
    else if primitive == identifier Primitive.equal
    then operate_comparison Value.eq
    else if primitive == identifier Primitive.less_than
    then operate_comparison less_than
    else if primitive == identifier Primitive.add
    then operate_binary add
    else if primitive == identifier Primitive.subtract
    then operate_binary sub
    else if primitive == identifier Primitive.multiply
    then operate_binary mul
    else if primitive == identifier Primitive.divide
    then operate_division div
    else if primitive == identifier Primitive.remainder
    then operate_division rem
    else if primitive == identifier Primitive.expt
    then operate_binary power
    else fail Error.illegal_primitive
