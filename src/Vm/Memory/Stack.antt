-- ===== src/Vm/Memory/Stack.antt =====
-- vm/src/memory.rs: creation, constants, the stack, and lists.
pub mod Sound
pub mod New
use wispy_vm.Prelude.{
  ℕ, zero, suc, ◌+◌, Bool, true, false, not, Option, none, some, List, [], ◌∷◌, ◌++◌, if◌then◌else◌,
}
use wispy_vm.Vm.Error.{Error}
use wispy_vm.Vm.Tags.{pair_type}
use wispy_vm.Vm.Cons
use wispy_vm.Vm.Cons.{Cons}
use wispy_vm.Vm.Value
use wispy_vm.Vm.Value.{Value, Number, zero_value}
use wispy_vm.Vm.Memory.{
  Memory, M, Outcome, ok, err, stuck, and_then, ◌>>=◌, ◌>>◌, pure, gets, modify, car, cdr, set_car,
  allocate_unchecked,
}
use wispy_vm.Vm.Memory.Gc.{allocate}

abbrev pub blank : List Value → Memory
blank heap = record {
  code = Cons.never;
  stack = Cons.never;
  false_cons = Cons.never;
  register = Cons.never;
  allocation_index = 0;
  space = false;
  heap = heap;
}

-- Two fake values are made: the second cell is the false value, and the first is null and true.
unfoldable pub initialize_false : M (Unit {0})
initialize_false = do
  cons ← allocate_unchecked zero_value zero_value
  f ← allocate_unchecked cons cons
  modify (λ m. record m { false_cons = f })

unfoldable pub new : List Value → Outcome (Unit {0})
new heap = initialize_false (blank heap)

unfoldable pub boolean : Bool → M Cons
boolean true = do f ← gets (λ m. m.false_cons); cdr f
boolean false = gets (λ m. m.false_cons)

unfoldable pub null : M Cons
null = do f ← gets (λ m. m.false_cons); car f

unfoldable pub cons : Value → Cons → M Cons
cons a d = allocate a (Cons.set_tag d pair_type)

unfoldable pub push : Value → M (Unit {0})
push v = do s ← gets (λ m. m.stack); c ← cons v s; modify (λ m. record m { stack = c })

unfoldable pub pop : M Value
pop = do
  s ← gets (λ m. m.stack)
  v ← car s
  rest ← cdr s
  modify (λ m. record m { stack = rest })
  pure v

-- The values are popped into an array from its end, so the last popped is the first.
unfoldable pub pop_many : ℕ → M (List Value)
pop_many zero = pure []
pop_many (suc n) = do v ← pop; vs ← pop_many n; pure (vs ++ (v ∷ []))

-- `assume_number` keeps the word.
unfoldable pub pop_numbers : ℕ → M (List Number)
unfolding pop_many
pop_numbers = pop_many

unfoldable pub top : M Value
top = do s ← gets (λ m. m.stack); car s

unfoldable pub set_top : Value → M (Unit {0})
set_top v = do s ← gets (λ m. m.stack); set_car s v

unfoldable pub tail : Cons → ℕ → M Cons
tail list zero = pure list
tail list (suc i) = do next ← cdr list; tail next i

unfoldable pub operate_top : (Value → M Value) → M (Unit {0})
operate_top operate = do v ← pop; v' ← operate v; push v'

unfoldable pub operate_unary : (Number → Number) → M (Unit {0})
operate_unary operate = do x ← pop; push (operate x)

-- `let [x, y] = pop_numbers()`: `y` is on top.
unfoldable pub operate_binary : (Number → Number → Number) → M (Unit {0})
operate_binary operate = do y ← pop; x ← pop; push (operate x y)

-- The `while` loop of `list_length`.
unfoldable pub length_loop : ℕ → Cons → ℕ → M ℕ
length_loop zero list n m = stuck
length_loop (suc fuel) list n m = and_then (null m) (λ nil m'.
    let more : Outcome ℕ = and_then (cdr list m') (λ next. length_loop fuel next (n + 1)) in
    if Cons.eq list nil then ok n m' else more)

unfoldable pub list_length : ℕ → Cons → M ℕ
unfolding length_loop
list_length fuel list = length_loop fuel list 0

-- `push(boolean(b))`, which the primitives do.
unfoldable pub push_boolean : Bool → M (Unit {0})
push_boolean b = do c ← boolean b; push c
