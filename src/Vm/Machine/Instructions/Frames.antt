-- ===== src/Vm/Machine/Instructions/Frames.antt =====
-- `continuation` of vm/src/vm.rs finds the nearest frame of the stack.
use wispy_vm.Prelude.{ℕ, zero, suc, ◌<◌, ◌≡◌, refl, true, false, ◌==◌, arith}
use wispy_vm.Vm.Tags.{frame_slot}
use wispy_vm.Vm.Cons
use wispy_vm.Vm.Cons.{Cons}
use wispy_vm.Vm.Value.{Value}
use wispy_vm.Vm.Memory.{Memory, ok, car, cdr}
use wispy_vm.Vm.Machine.Instructions.{find_frame, continuation}

-- From `stack` on, `n` values lie above the nearest frame, whose cell is `frame`.
pub data Above (m : Memory) (frame : Cons) : Cons → ℕ → Type 0 where
  here :
      {next : Value}
      → cdr frame m ≡ ok next m
      → (Cons.tag next == frame_slot) ≡ true
      → Above m frame frame 0
  deeper :
      {stack next : Cons} {n : ℕ}
      → cdr stack m ≡ ok next m
      → (Cons.tag next == frame_slot) ≡ false
      → Above m frame next n
      → Above m frame stack (suc n)

find_frame-Above :
    (m : Memory) (frame stack : Cons) (n fuel : ℕ)
    → Above m frame stack n
    → n < fuel
    → find_frame fuel stack m ≡ ok frame m
unfolding find_frame
find_frame-Above m frame stack n zero a h = absurd (omega arith)
find_frame-Above m frame _ zero (suc fuel) (here d t) h = rw (d, t) refl
find_frame-Above m frame stack (suc n) (suc fuel) (deeper {next} d t a) h =
    rw (d, t) (find_frame-Above m frame next n fuel a (omega arith))

-- The continuation is what the nearest frame holds, whatever number of values lies above it, with fuel
-- for one round more than there are values.
pub continuation-Above :
    (m : Memory) (frame : Cons) (n fuel : ℕ)
    → Above m frame m.stack n
    → n < fuel
    → continuation fuel m ≡ car frame m
unfolding continuation
continuation-Above m frame n fuel a h = rw (find_frame-Above m frame m.stack n fuel a h) refl
