-- ===== src/Vm/Machine/Instructions.antt =====
-- vm/src/vm.rs: the instructions of the virtual machine that call no primitive.
pub mod Frames
pub mod Sound
pub mod Branch
pub mod Advance
mod Tests
mod ReturnTests
use wispy_vm.Prelude.{ℕ, zero, suc, Bool, true, false, ◌==◌, if◌then◌else◌}
use wispy_vm.Vm.Error.{Error}
use wispy_vm.Vm.Tags.{frame_slot, procedure_type}
use wispy_vm.Vm.Cons
use wispy_vm.Vm.Cons.{Cons}
use wispy_vm.Vm.Value
use wispy_vm.Vm.Value.{Value, TypedValue}
use wispy_vm.Vm.ValueInner.{to_i64}
use wispy_vm.Vm.Arity.{Arity, parse_arity}
use wispy_vm.Vm.Memory.{
  M, Outcome, ok, stuck, and_then, ◌>>=◌, ◌>>◌, pure, fail, gets, modify, car, cdr, set_car,
  set_cdr,
}
use wispy_vm.Vm.Memory.Gc.{allocate}
use wispy_vm.Vm.Memory.Stack.{boolean, null, cons, push, pop, tail}

abbrev pub set_code : Cons → M (Unit {0})
set_code c = modify (λ m. record m { code = c })

abbrev pub set_stack : Cons → M (Unit {0})
set_stack c = modify (λ m. record m { stack = c })

abbrev pub set_register : Cons → M (Unit {0})
set_register c = modify (λ m. record m { register = c })

unfoldable pub operand : M Value
operand = do c ← gets (λ m. m.code); car c

-- A number is an index on the stack.
unfoldable pub operand_cons : M Cons
operand_cons = do
  v ← operand
  elim (Value.to_typed v) [
    | TypedValue.cons c ↦ pure c
    | TypedValue.number n ↦ do s ← gets (λ m. m.stack); tail s (to_i64 n)
  ]

unfoldable pub procedure : M Cons
procedure = do c ← operand_cons; car c

unfoldable pub code_of : Cons → M Value
code_of p = car p

unfoldable pub environment : Cons → M Cons
environment p = cdr p

-- The `while` loop of `continuation`: down the stack to the nearest frame.
unfoldable pub find_frame : ℕ → Cons → M Cons
find_frame zero stack m = stuck
find_frame (suc fuel) stack m = and_then (cdr stack m) (λ next m'.
    let more : Outcome Cons = find_frame fuel next m' in
    if Cons.tag next == frame_slot then ok stack m' else more)

unfoldable pub continuation : ℕ → M Cons
continuation fuel = do s ← gets (λ m. m.stack); frame ← find_frame fuel s; car frame

unfoldable pub constant : M (Unit {0})
constant = do v ← operand; push v

unfoldable pub get : M (Unit {0})
get = do c ← operand_cons; v ← car c; push v

unfoldable pub set : M (Unit {0})
set = do c ← operand_cons; v ← pop; set_car c v

-- The popped cell is used again: it leads to the operand and becomes the code.
unfoldable pub branch : M (Unit {0})
branch = do
  cell ← gets (λ m. m.stack)
  v ← pop
  f ← boolean false
  if Value.eq v f then pure tt else do target ← operand; set_cdr cell target; set_code cell

unfoldable pub advance_code : ℕ → M (Unit {0})
advance_code fuel = do
  c ← gets (λ m. m.code)
  next ← cdr c
  nil ← null
  if Cons.eq next nil
      then (do
        k ← continuation fuel
        rest ← cdr k
        s ← gets (λ m. m.stack)
        set_cdr s rest
        caller ← car k
        after ← cdr caller
        set_code after)
      else set_code next

-- The loop over the arguments on the stack: the last is on top.
unfoldable pub collect_arguments : ℕ → Cons → M Cons
collect_arguments zero list = pure list
collect_arguments (suc n) list = do v ← pop; list' ← cons v list; collect_arguments n list'

-- Pushes the first argument of the list in the register, and drops it from the list.
unfoldable pub next_argument : M (Unit {0})
next_argument = do
  r ← gets (λ m. m.register)
  v ← car r
  push v
  r' ← gets (λ m. m.register)
  rest ← cdr r'
  set_register rest

-- The loop over the parameters: each takes the next argument of the list in the register.
unfoldable pub bind_parameters : ℕ → M (Unit {0})
bind_parameters zero = pure tt
bind_parameters (suc n) = do
  r ← gets (λ m. m.register)
  nil ← null
  if Cons.eq r nil then fail Error.argument_count else (next_argument >> bind_parameters n)

-- What is left over is the last parameter of a variadic procedure, and an error otherwise.
unfoldable pub bind_rest : Bool → M (Unit {0})
bind_rest true = do r ← gets (λ m. m.register); push r
bind_rest false = do
  r ← gets (λ m. m.register)
  nil ← null
  if Cons.eq r nil then pure tt else fail Error.argument_count

-- The branch of `call` for a procedure with code.
unfoldable pub enter : ℕ → Cons → Cons → Arity → Bool → M (Unit {0})
enter fuel p code arguments returns = do
  info ← car code
  set_register p
  list ← if arguments.variadic then pop else null
  list' ← collect_arguments arguments.count list
  caller ← gets (λ m. m.code)
  r ← gets (λ m. m.register)
  set_code r
  set_register list'
  s ← gets (λ m. m.stack)
  k ← if returns then continuation fuel else allocate caller s
  p' ← gets (λ m. m.code)
  e ← environment p'
  frame ← allocate k (Cons.set_tag e frame_slot)
  set_stack frame
  p'' ← gets (λ m. m.code)
  body ← code_of p''
  set_code body
  let parameters = parse_arity (to_i64 info)
  bind_parameters parameters.count
  bind_rest parameters.variadic

-- The `while` loop that puts the arguments of a variadic call of a primitive on the stack.
unfoldable pub spread : ℕ → M (Unit {0})
spread zero m = stuck
spread (suc fuel) m = and_then (null m) (λ nil m'.
    let more : Outcome (Unit {0}) = (next_argument >> spread fuel) m' in
    if Cons.eq m'.register nil then ok tt m' else more)

unfoldable pub spread_arguments : ℕ → Bool → M (Unit {0})
spread_arguments fuel true = do list ← pop; set_register list; spread fuel
spread_arguments fuel false = pure tt

-- What `call` does before it looks at the code of the procedure.
unfoldable pub callee : M (Cons × Value)
callee = do
  p ← procedure
  e ← environment p
  if Cons.tag e == procedure_type
      then (do c ← code_of p; pure (p, c))
      else fail Error.procedure_expected
