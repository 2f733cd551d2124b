-- ===== src/Vm/Machine/Instructions/Tests.antt =====
-- The loads and stores of vm/src/vm.rs in a small memory.
use wispy_vm.Prelude.{ℕ, zero, suc, ◌+◌, ◌*◌, ◌<◌, ◌≡◌, ◌⊎◌, refl, true, false, [], ◌∷◌, arith}
use wispy_vm.Vm.ValueInner.{IsWord, is_cons}
use wispy_vm.Vm.Cons
use wispy_vm.Vm.Value
use wispy_vm.Vm.Value.{Value}
use wispy_vm.Vm.Machine.Instructions.{operand, operand_cons, get, set, branch}
use wispy_vm.Vm.Machine.Instructions.Sound.{get-IsSound, set-IsSound}
use wispy_vm.Vm.Machine.Instructions.Branch.{branch-IsSound}
use wispy_vm.Vm.Memory.Stack.Sound.{with_stack, Pushes}
use wispy_vm.Vm.Memory.Cells.{car_word, car_word-IsHeld, car_word_fresh}
use wispy_vm.Vm.Memory
use wispy_vm.Vm.Memory.{Memory, ok, err, size, space_size, allocation_start, car, cdr}
use wispy_vm.Vm.Memory.Access.{word_at}
use wispy_vm.Vm.Memory.Gc.Relocate.{nowhere, cell, Ref, number, pointer}
use wispy_vm.Vm.Memory.Gc.Sound.{IsCell, IsRoot, IsSound, cells}
use wispy_vm.Vm.Memory.Stack.{push}

-- The code at 0 has the variable at 2 as its operand; the number 3 is on the stack, at 4.
abbrev store : Memory
store = record {
  code = 0;
  stack = 524288;
  false_cons = 131072;
  register = 131072;
  allocation_index = 6;
  space = false;
  heap =
      262144 ∷ 131072 ∷ 11 ∷ 1 ∷ 7 ∷ 0 ∷ 0 ∷ 0 ∷ 0 ∷ 0 ∷ 0 ∷ 0 ∷ 0 ∷ 0 ∷ 0 ∷ 0 ∷ 0 ∷ 0 ∷ 0 ∷ 0 ∷ [];
}

store_words :
    (i : ℕ)
    → i < 6
    → IsWord (word_at store (allocation_start store + i))
      × Ref (allocation_start store) (cells store) (word_at store (allocation_start store + i))
unfolding Cons.index is_cons allocation_start
store_words zero h = (omega arith, pointer refl (cell 1 (omega arith) refl))
store_words (suc zero) h = (omega arith, pointer refl (nowhere refl))
store_words (suc (suc zero)) h = (omega arith, number refl)
store_words (suc (suc (suc zero))) h = (omega arith, number refl)
store_words (suc (suc (suc (suc zero)))) h = (omega arith, number refl)
store_words (suc (suc (suc (suc (suc zero))))) h =
    (omega arith, pointer refl (cell 0 (omega arith) refl))
store_words (suc (suc (suc (suc (suc (suc i)))))) h = absurd (omega arith)

store_not_moved :
    (k : ℕ) → k < 3 → Value.eq (word_at store (allocation_start store + 2 * k)) Cons.never ≡ false
unfolding Value.eq Cons.never allocation_start
store_not_moved zero h = refl
store_not_moved (suc zero) h = refl
store_not_moved (suc (suc zero)) h = refl
store_not_moved (suc (suc (suc k))) h = absurd (omega arith)

nowhere-IsRoot : IsRoot store 131072
unfolding Cons.index is_cons
nowhere-IsRoot = record { word = omega arith; cons = refl; target = nowhere refl }

store-IsSound : IsSound store
unfolding size space_size Cons.index is_cons allocation_start
store-IsSound = record {
  whole = refl;
  small = omega arith;
  paired = refl;
  fits = omega arith;
  words = store_words;
  not_moved = store_not_moved;
  code = record { word = omega arith; cons = refl; target = cell 0 (omega arith) refl };
  stack = record { word = omega arith; cons = refl; target = cell 2 (omega arith) refl };
  false_cons = nowhere-IsRoot;
  register = nowhere-IsRoot;
}

variable-IsCell : IsCell store 262144
unfolding Cons.index allocation_start
variable-IsCell = record { number = 1; allocated = omega arith; at = refl }

top-IsCell : IsCell store store.stack
unfolding Cons.index allocation_start
top-IsCell = record { number = 2; allocated = omega arith; at = refl }

operand-store : operand_cons store ≡ ok 262144 store
unfolding operand_cons operand car Memory.get Value.to_typed is_cons Cons.index
operand-store = refl

get-IsSound_example :
    (car 262144 store ≡ ok (car_word store store-IsSound 262144 variable-IsCell) store)
    × (get store ≡ push (car_word store store-IsSound 262144 variable-IsCell) store)
    × Pushes store store-IsSound
        (car_word store store-IsSound 262144 variable-IsCell)
        (car_word-IsHeld store store-IsSound 262144 variable-IsCell)
        (car_word_fresh store store-IsSound 262144 variable-IsCell)
        get
get-IsSound_example = get-IsSound store store-IsSound 262144 operand-store variable-IsCell

set-IsSound_example :
    (v : Value) × (car store.stack store ≡ ok v store)
    × ((m' : Memory) × (set store ≡ ok tt m')
        × IsSound m'
        × (car 262144 m' ≡ ok v m')
        × (m'.stack ≡ 0))
unfolding is_cons allocation_start top-IsCell
set-IsSound_example =
    set-IsSound store store-IsSound top-IsCell refl 262144 operand-store variable-IsCell

code-IsCell : IsCell store store.code
unfolding Cons.index allocation_start
code-IsCell = record { number = 0; allocated = omega arith; at = refl }

branch-IsSound_example :
    (v : Value) × (car store.stack store ≡ ok v store)
    × (((Value.eq v store.false_cons ≡ true)
          × (branch store ≡ ok tt (with_stack store 0))
          × IsSound (with_stack store 0))
        ⊎ ((Value.eq v store.false_cons ≡ false)
            × ((m' : Memory) × (branch store ≡ ok tt m')
                × IsSound m'
                × (m'.code ≡ store.stack)
                × (m'.stack ≡ 0)
                × (cdr store.stack m' ≡ ok (Value.set_tag 262144 (Value.tag 0)) m'))))
unfolding is_cons allocation_start top-IsCell code-IsCell
branch-IsSound_example = branch-IsSound store store-IsSound top-IsCell refl code-IsCell
