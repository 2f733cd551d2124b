-- ===== src/Vm/Memory/Gc.antt =====
-- vm/src/memory.rs: the copying garbage collector, and allocation that calls it.
pub mod Relocate
pub mod Move
pub mod Keep
pub mod Copy
pub mod Scan
pub mod Sound
pub mod Roots
pub mod Collect
pub mod Preserve
pub mod Grow
pub mod Allocate
use wispy_vm.Prelude.{
  ℕ, zero, suc, ◌+◌, Bool, true, false, not, Option, none, some, ltb, if◌then◌else◌,
}
use wispy_vm.Vm.Error.{Error}
use wispy_vm.Vm.Cons
use wispy_vm.Vm.Cons.{Cons}
use wispy_vm.Vm.Value
use wispy_vm.Vm.Value.{Value}
use wispy_vm.Vm.Memory.{
  Memory, M, Outcome, stuck, and_then, ◌>>=◌, ◌>>◌, pure, gets, modify, space_size,
  is_out_of_memory, allocation_start, allocation_end, get, set, garbage_car, garbage_cdr,
  set_garbage_car, set_garbage_cdr, allocate_unchecked,
}

-- The last branch of `copy_cons`: copies a cell that was not copied before.
unfoldable pub move_cons : Cons → M Cons
move_cons c = do
  a ← garbage_car c
  d ← garbage_cdr c
  copy ← allocate_unchecked a d
  set_garbage_car c Cons.never
  set_garbage_cdr c copy
  pure copy

unfoldable pub copy_cons : Cons → M Cons
copy_cons c = if Cons.eq c Cons.never then pure (Cons.set_tag Cons.never (Cons.tag c)) else do
  a ← garbage_car c
  copy ← if Value.eq a Cons.never then garbage_cdr c else move_cons c
  pure (Cons.set_tag copy (Cons.tag c))

unfoldable pub copy_value : Value → M Value
copy_value v = elim (Value.to_cons v) [ none ↦ pure v | some c ↦ copy_cons c ]

-- The `while` loop of `collect_garbages`.
unfoldable pub scan : ℕ → ℕ → M (Unit {0})
scan zero i m = stuck
scan (suc fuel) i m =
    let step : Outcome (Unit {0}) =
      and_then (get i m) (λ v. copy_value v >>= λ v'. set i v' >> scan fuel (i + 1)) in
    if ltb i (allocation_end m) then step else pure tt m

unfoldable pub flip : Memory → Memory
flip m = record m { allocation_index = 0; space = not m.space }

unfoldable pub copy_code : M (Unit {0})
copy_code = do c ← gets (λ m. m.code); c' ← copy_cons c; modify (λ m. record m { code = c' })

unfoldable pub copy_stack : M (Unit {0})
copy_stack = do c ← gets (λ m. m.stack); c' ← copy_cons c; modify (λ m. record m { stack = c' })

unfoldable pub copy_false : M (Unit {0})
copy_false = do
  c ← gets (λ m. m.false_cons)
  c' ← copy_cons c
  modify (λ m. record m { false_cons = c' })

unfoldable pub copy_register : M (Unit {0})
copy_register = do
  c ← gets (λ m. m.register)
  c' ← copy_cons c
  modify (λ m. record m { register = c' })

-- `cons`, where it is given, is one more root, and its new address is the result.
unfoldable pub copy_extra : Option Cons → M (Option Cons)
copy_extra none = pure none
copy_extra (some c) = do c' ← copy_cons c; pure (some c')

-- The loop takes one round for each word allocated, and one more to end.
unfoldable pub collect_garbages : Option Cons → M (Option Cons)
collect_garbages extra = do
  modify flip
  copy_code
  copy_stack
  copy_false
  copy_register
  extra' ← copy_extra extra
  start ← gets allocation_start
  fuel ← gets (λ m. suc (space_size m))
  scan fuel start
  pure extra'

abbrev pub or_else : Option Cons → Cons → Cons
or_else none c = c
or_else (some c) _ = c

-- Built without the feature `gc_always`, it collects when the space is used up.
unfoldable pub allocate : Value → Value → M Cons
allocate a d = do
  cons ← allocate_unchecked a d
  full ← gets is_out_of_memory
  if full then (do c' ← collect_garbages (some cons); pure (or_else c' cons)) else pure cons
