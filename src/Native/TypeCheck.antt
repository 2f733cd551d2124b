-- ===== src/Native/TypeCheck.antt =====
-- native/src/type_check.rs: the type check primitives.
use wispy_vm.Prelude.{ℕ, zero, suc, Bool, false, none, some, ◌==◌}
use wispy_vm.Vm.Error.{Error}
use wispy_vm.Vm.Tags.{pair_type}
use wispy_vm.Vm.Value
use wispy_vm.Vm.Value.{Value}
use wispy_vm.Vm.Memory.{M, ◌>>=◌, pure, fail, cdr}
use wispy_vm.Vm.Memory.Stack.{boolean, null, operate_top}

unfoldable pub is_null : Value → M Value
is_null v = do nil ← null; boolean (Value.eq v nil)

unfoldable pub has_pair_tag : Value → M Bool
has_pair_tag v = elim (Value.to_cons v) [
  | none ↦ pure false
  | some c ↦ do d ← cdr c; pure (Value.tag d == pair_type)
]

unfoldable pub is_pair : Value → M Value
is_pair v = do b ← has_pair_tag v; boolean b

-- `operate` of `TypeCheckPrimitiveSet`
unfoldable pub operate_type_check : ℕ → M (Unit {0})
operate_type_check zero = operate_top is_null
operate_type_check (suc zero) = operate_top is_pair
operate_type_check (suc (suc p)) = fail Error.illegal_primitive
