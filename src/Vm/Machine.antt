-- ===== src/Vm/Machine.antt =====
-- vm/src/vm.rs: the virtual machine, over a set of primitives that is a parameter.
pub mod Instructions
pub mod Integer
pub mod Recover
pub mod Decode
mod Tests
use wispy_vm.Prelude.{
  ℕ, zero, suc, ◌+◌, ◌-◌, Bool, true, false, not, Option, none, some, List, [], ◌∷◌, ◌==◌,
  if◌then◌else◌,
}
use wispy_vm.Primitive.{
  Attempt, Operation, done, failed, stuck, operate_then, ◌>>=◌, ◌>>◌, fail, on_memory,
}
use wispy_vm.Vm.Error.{Error}
use wispy_vm.Vm.Tags.{
  constant_instruction, get_instruction, set_instruction, if_instruction, call_instruction,
  procedure_type, symbol_type,
}
use wispy_vm.Vm.Cons
use wispy_vm.Vm.Cons.{Cons}
use wispy_vm.Vm.Value
use wispy_vm.Vm.Value.{Value, TypedValue}
use wispy_vm.Vm.ValueInner.{to_i64}
use wispy_vm.Vm.Arity.{Arity, parse_arity, build_arity}
use wispy_vm.Vm.Memory
use wispy_vm.Vm.Memory.{Memory, M, gets, cdr}
use wispy_vm.Vm.Memory.Gc.{allocate}
use wispy_vm.Vm.Memory.Stack.{null}
use wispy_vm.Vm.Machine.Decode.{initialize}
use wispy_vm.Vm.Machine.Recover.{schedule_handler}
use wispy_vm.Vm.Memory.Text.{build_string, write_str}
use wispy_vm.Vm.Machine.Instructions.{
  set_code, set_register, constant, get, set, branch, advance_code, enter, spread_arguments, callee,
}

-- What is done with an error.
abbrev pub on_failure : {E S A : Type 0} → S × Attempt E A → (E → Operation E S A) → S × Attempt E A
on_failure (s, done a m) f = (s, done a m)
on_failure (s, failed e m) f = f e s m
on_failure (s, stuck) f = (s, stuck)

-- `operate` is the primitive set, with its errors `E`: `from` turns an error of the memory into one of
-- them, and `message` is how one is displayed. `fuel` bounds the loops down lists and the stack.
module _ {E S : Type 0} (operate : ℕ → Operation E S (Unit {0})) (from : Error → E)
    (is_critical : E → Bool) (message : E → List ℕ) (fuel : ℕ) where
  abbrev pub Run : Type 0 → Type 0
  Run A = Operation E S A

  -- A step on the memory alone.
  abbrev pub lift : {A : Type 0} → M A → Run A
  lift f = on_memory from f

  unfoldable pub call : Cons → ℕ → Run (Unit {0})
  call instruction info = do
    (p, code) ← lift callee
    nil ← lift null
    let arguments = parse_arity info
    let returns = Cons.eq instruction nil
    elim (Value.to_typed code) [
      | TypedValue.cons c ↦ lift (enter fuel p c arguments returns)
      | TypedValue.number n ↦ do lift (spread_arguments fuel arguments.variadic); operate (to_i64 n)
    ]

  unfoldable pub dispatch : Cons → ℕ → Run (Unit {0})
  dispatch instruction tag =
      if tag == constant_instruction
      then lift constant
      else if tag == get_instruction
      then lift get
      else if tag == set_instruction
      then lift set
      else if tag == if_instruction
      then lift branch
      else call instruction (tag - call_instruction)

  -- One round of the loop of `run_with_continuation`.
  unfoldable pub step : Run (Unit {0})
  step = do
    c ← lift (gets (λ m. m.code))
    instruction ← lift (cdr c)
    dispatch instruction (Cons.tag instruction)
    lift (advance_code fuel)

  -- The loop, for a number of rounds.
  unfoldable pub run_with_continuation : ℕ → Run (Unit {0})
  run_with_continuation zero s m = (s, stuck)
  run_with_continuation (suc rounds) s m = operate_then (lift null s m) (λ nil s' m'.
      let more : S × Attempt E (Unit {0}) = (step >> run_with_continuation rounds) s' m' in
      if Cons.eq m'.code nil then (s', done tt m') else more)

  -- What `run_async` does with an error: the handler stands in the `cdr` of null, and is a procedure.
  unfoldable pub recover : E → Run (Unit {0})
  recover e = if is_critical e then fail e else (do
    nil ← lift null
    v ← lift (cdr nil)
    elim (Value.to_cons v) [
      | none ↦ fail e
      | some handler ↦ do
        code ← lift (cdr handler)
        if Value.tag code == procedure_type
            then lift (schedule_handler fuel (message e) handler)
            else fail e
    ])

  -- `run_async` behind `initialize`: `attempts` bounds the errors that are handled.
  unfoldable pub run_loop : (attempts rounds : ℕ) → Run (Unit {0})
  run_loop zero rounds s m = (s, stuck)
  run_loop (suc attempts) rounds s m =
      on_failure (run_with_continuation rounds s m) (λ e. recover e >> run_loop attempts rounds)

  unfoldable pub run : (ℕ → Value.Number) → (attempts rounds : ℕ) → List ℕ → Run (Unit {0})
  run float attempts rounds input = do lift (initialize float input); run_loop attempts rounds
