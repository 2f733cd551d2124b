-- ===== src/Native/Equal.antt =====
-- native/src/equal.rs: the equality primitives.
use wispy_vm.Prelude.{ℕ, zero, suc, Bool, true, false, ◌||◌, none, some, ◌==◌, if◌then◌else◌}
use wispy_vm.Vm.Error.{Error}
use wispy_vm.Vm.Tags.{boolean_type, null_type, symbol_type, character_type}
use wispy_vm.Vm.ValueInner.{is_cons}
use wispy_vm.Vm.Cons.{Cons}
use wispy_vm.Vm.Value
use wispy_vm.Vm.Value.{Value}
use wispy_vm.Vm.Memory.{M, Outcome, ok, err, ◌>>=◌, pure, fail, car, cdr}
use wispy_vm.Vm.Memory.Stack.{boolean, pop, push}

-- `memory.car(x) == memory.car(y)` compares results: the values, or the errors, which are the same.
abbrev same_result : Outcome Value → Outcome Value → Bool
same_result (ok v m) (ok v' m') = Value.eq v v'
same_result (err e m) (err e' m') = true
same_result _ _ = false

unfoldable pub same_car : Cons → Cons → M Bool
same_car x y m = ok (same_result (car x m) (car y m)) m

-- Two characters are the same if their code points are.
unfoldable pub same_character : Cons → Cons → M Bool
same_character x y = do
  a ← cdr x
  if Value.tag a == character_type
      then (do b ← cdr y; if Value.tag b == character_type then same_car x y else pure false)
      else pure false

unfoldable pub is_eqv : Value → Value → M Bool
is_eqv x y = if Value.eq x y then pure true else elim (Value.to_cons x) [
  | none ↦ pure false
  | some c ↦ elim (Value.to_cons y) [ none ↦ pure false | some d ↦ same_character c d ]
]

-- The tags of values that are equal only if they are the same.
unfoldable pub is_unique : ℕ → Bool
is_unique tag = (tag == boolean_type) || (tag == null_type) || (tag == symbol_type)

unfoldable pub same_inner : Cons → Cons → M Bool
same_inner c d = do
  a ← cdr c
  b ← cdr d
  if Value.tag a == Value.tag b
      then (if is_unique (Value.tag a)
          then pure false
          else (do v ← car c; if is_cons v then pure true else (do w ← car d; pure (Value.eq v w))))
      else pure false

unfoldable pub is_equal_inner : Value → Value → M Bool
is_equal_inner x y = elim (Value.to_cons x) [
  | none ↦ pure false
  | some c ↦ elim (Value.to_cons y) [ none ↦ pure false | some d ↦ same_inner c d ]
]

unfoldable pub eqv : M (Unit {0})
eqv = do y ← pop; x ← pop; same ← is_eqv x y; b ← boolean same; push b

unfoldable pub equal_inner : M (Unit {0})
equal_inner = do y ← pop; x ← pop; same ← is_equal_inner x y; b ← boolean same; push b

-- `operate` of `EqualPrimitiveSet`
unfoldable pub operate_equal : ℕ → M (Unit {0})
operate_equal zero = eqv
operate_equal (suc zero) = equal_inner
operate_equal (suc (suc p)) = fail Error.illegal_primitive
