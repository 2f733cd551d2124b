-- ===== src/Vm/Machine/Instructions/ReturnTests.antt =====
-- The return from a call in vm/src/vm.rs, in a small memory.
use wispy_vm.Prelude.{ℕ, zero, suc, ◌+◌, ◌*◌, ◌<◌, ◌≡◌, ◌⊎◌, refl, true, false, [], ◌∷◌, arith}
use wispy_vm.Vm.ValueInner.{IsWord, is_cons}
use wispy_vm.Vm.Cons
use wispy_vm.Vm.Value
use wispy_vm.Vm.Value.{Value}
use wispy_vm.Vm.Machine.Instructions.{continuation, find_frame, advance_code}
use wispy_vm.Vm.Machine.Instructions.Branch.{with_code}
use wispy_vm.Vm.Machine.Instructions.Advance.{Returns, advance_code-IsSound}
use wispy_vm.Vm.Memory
use wispy_vm.Vm.Memory.{Memory, ok, size, space_size, allocation_start, car, cdr}
use wispy_vm.Vm.Memory.Access.{word_at}
use wispy_vm.Vm.Memory.Gc.Relocate.{nowhere, cell, Ref, number, pointer}
use wispy_vm.Vm.Memory.Gc.Sound.{IsCell, IsSound, cells}

-- The code at 2 is the last of a procedure, since the null value at 0 is behind it. The number 5 is
-- on the stack, at 4, over the frame at 6, with the continuation at 8: it goes on behind the call at
-- 10, with an empty stack.
abbrev returning : Memory
returning = record {
  code = 262144;
  stack = 524288;
  false_cons = 0;
  register = 131072;
  allocation_index = 12;
  space = false;
  heap =
      0 ∷ 0 ∷ 7 ∷ 0 ∷ 11 ∷ 786432 ∷ 1048576 ∷ 131074 ∷ 1310720 ∷ 131072 ∷ 7 ∷ 262144 ∷ 0 ∷ 0 ∷ 0 ∷ 0
      ∷ 0 ∷ 0 ∷ 0 ∷ 0 ∷ 0 ∷ 0 ∷ 0 ∷ 0 ∷ [];
}

returning_words :
    (i : ℕ)
    → i < 12
    → IsWord (word_at returning (allocation_start returning + i))
      × Ref
          (allocation_start returning)
          (cells returning)
          (word_at returning (allocation_start returning + i))
unfolding Cons.index is_cons allocation_start
returning_words zero h = (omega arith, pointer refl (cell 0 (omega arith) refl))
returning_words (suc zero) h = (omega arith, pointer refl (cell 0 (omega arith) refl))
returning_words (suc (suc zero)) h = (omega arith, number refl)
returning_words (suc (suc (suc zero))) h = (omega arith, pointer refl (cell 0 (omega arith) refl))
returning_words (suc (suc (suc (suc zero)))) h = (omega arith, number refl)
returning_words (suc (suc (suc (suc (suc zero))))) h =
    (omega arith, pointer refl (cell 3 (omega arith) refl))
returning_words (suc (suc (suc (suc (suc (suc zero)))))) h =
    (omega arith, pointer refl (cell 4 (omega arith) refl))
returning_words (suc (suc (suc (suc (suc (suc (suc zero))))))) h =
    (omega arith, pointer refl (nowhere refl))
returning_words (suc (suc (suc (suc (suc (suc (suc (suc zero)))))))) h =
    (omega arith, pointer refl (cell 5 (omega arith) refl))
returning_words (suc (suc (suc (suc (suc (suc (suc (suc (suc zero))))))))) h =
    (omega arith, pointer refl (nowhere refl))
returning_words (suc (suc (suc (suc (suc (suc (suc (suc (suc (suc zero)))))))))) h =
    (omega arith, number refl)
returning_words (suc (suc (suc (suc (suc (suc (suc (suc (suc (suc (suc zero))))))))))) h =
    (omega arith, pointer refl (cell 1 (omega arith) refl))
returning_words (suc (suc (suc (suc (suc (suc (suc (suc (suc (suc (suc (suc i)))))))))))) h =
    absurd (omega arith)

returning_not_moved :
    (k : ℕ)
    → k < 6
    → Value.eq (word_at returning (allocation_start returning + 2 * k)) Cons.never ≡ false
unfolding Value.eq Cons.never allocation_start
returning_not_moved zero h = refl
returning_not_moved (suc zero) h = refl
returning_not_moved (suc (suc zero)) h = refl
returning_not_moved (suc (suc (suc zero))) h = refl
returning_not_moved (suc (suc (suc (suc zero)))) h = refl
returning_not_moved (suc (suc (suc (suc (suc zero))))) h = refl
returning_not_moved (suc (suc (suc (suc (suc (suc k)))))) h = absurd (omega arith)

returning-IsSound : IsSound returning
unfolding size space_size Cons.index is_cons allocation_start
returning-IsSound = record {
  whole = refl;
  small = omega arith;
  paired = refl;
  fits = omega arith;
  words = returning_words;
  not_moved = returning_not_moved;
  code = record { word = omega arith; cons = refl; target = cell 1 (omega arith) refl };
  stack = record { word = omega arith; cons = refl; target = cell 2 (omega arith) refl };
  false_cons = record { word = omega arith; cons = refl; target = cell 0 (omega arith) refl };
  register = record { word = omega arith; cons = refl; target = nowhere refl };
}

last-IsCell : IsCell returning returning.code
unfolding Cons.index allocation_start
last-IsCell = record { number = 1; allocated = omega arith; at = refl }

nil-IsCell : IsCell returning returning.false_cons
unfolding Cons.index allocation_start
nil-IsCell = record { number = 0; allocated = omega arith; at = refl }

nearest-Returns : Returns returning returning-IsSound 2
unfolding Cons.index Cons.tag allocation_start is_cons continuation find_frame car cdr Memory.get
nearest-Returns = record {
  frame = 1048576;
  run = refl;
  frame_cell = record { number = 4; allocated = omega arith; at = refl };
  caller_cell = record { number = 5; allocated = omega arith; at = refl };
  top = record { number = 2; allocated = omega arith; at = refl };
  apart = λ e. omega (arith, e);
  behind = refl;
}

advance_code-IsSound_example :
    ((Cons.eq 0 0 ≡ false)
      × (advance_code 2 returning ≡ ok tt (with_code returning 0))
      × IsSound (with_code returning 0))
    ⊎ ((e : Cons.eq 0 0 ≡ true) × (m' : Memory) × (advance_code 2 returning ≡ ok tt m')
        × IsSound m'
        × (m'.code ≡ 262144)
        × (m'.stack ≡ 524288)
        × (car 524288 m' ≡ ok 11 m')
        × (cdr 524288 m' ≡ ok (Value.set_tag 131072 (Value.tag 786432)) m'))
unfolding allocation_start is_cons last-IsCell nil-IsCell nearest-Returns
advance_code-IsSound_example =
    advance_code-IsSound returning returning-IsSound 2 last-IsCell nil-IsCell refl
      (λ e. nearest-Returns)
