-- ===== src/Vm/Memory/Sample.antt =====
-- A small memory of vm/src/memory.rs, sound and with a cycle, for tests.
use wispy_vm.Prelude.{ℕ, zero, suc, ◌+◌, ◌*◌, ◌<◌, ◌≡◌, refl, false, [], ◌∷◌, arith}
use wispy_vm.Vm.ValueInner.{IsWord, is_cons}
use wispy_vm.Vm.Cons
use wispy_vm.Vm.Cons.{Cons}
use wispy_vm.Vm.Value
use wispy_vm.Vm.Value.{Value}
use wispy_vm.Vm.Memory.{Memory, size, space_size, allocation_start}
use wispy_vm.Vm.Memory.Access.{word_at}
use wispy_vm.Vm.Memory.Gc.Relocate.{nowhere, cell, Ref, number, pointer}
use wispy_vm.Vm.Memory.Gc.Sound.{IsRoot, IsSound, cells}
use wispy_vm.Vm.Memory.Gc.Grow.{IsHeld}

-- Two cells, at the addresses 0 and 4, lead to each other; the one at 2 is garbage.
abbrev pub cycle : Memory
cycle = record {
  code = 0;
  stack = 131072;
  false_cons = 131072;
  register = 131072;
  allocation_index = 6;
  space = false;
  heap =
      11 ∷ 524288 ∷ 1 ∷ 1 ∷ 0 ∷ 131072 ∷ 0 ∷ 0 ∷ 0 ∷ 0 ∷ 0 ∷ 0 ∷ 0 ∷ 0 ∷ 0 ∷ 0 ∷ 0 ∷ 0 ∷ 0 ∷ 0 ∷ [];
}

never-IsRoot : IsRoot cycle 131072
unfolding Cons.index is_cons
never-IsRoot = record { word = omega arith; cons = refl; target = nowhere refl }

pub code-IsRoot : IsRoot cycle 0
unfolding Cons.index is_cons allocation_start
code-IsRoot = record { word = omega arith; cons = refl; target = cell 0 (omega arith) refl }

cycle_words :
    (i : ℕ)
    → i < 6
    → IsWord (word_at cycle (allocation_start cycle + i))
      × Ref (allocation_start cycle) (cells cycle) (word_at cycle (allocation_start cycle + i))
unfolding Cons.index is_cons allocation_start
cycle_words zero h = (omega arith, number refl)
cycle_words (suc zero) h = (omega arith, pointer refl (cell 2 (omega arith) refl))
cycle_words (suc (suc zero)) h = (omega arith, number refl)
cycle_words (suc (suc (suc zero))) h = (omega arith, number refl)
cycle_words (suc (suc (suc (suc zero)))) h = (omega arith, pointer refl (cell 0 (omega arith) refl))
cycle_words (suc (suc (suc (suc (suc zero))))) h = (omega arith, pointer refl (nowhere refl))
cycle_words (suc (suc (suc (suc (suc (suc i)))))) h = absurd (omega arith)

cycle_not_moved :
    (k : ℕ) → k < 3 → Value.eq (word_at cycle (allocation_start cycle + 2 * k)) Cons.never ≡ false
unfolding Value.eq Cons.never allocation_start
cycle_not_moved zero h = refl
cycle_not_moved (suc zero) h = refl
cycle_not_moved (suc (suc zero)) h = refl
cycle_not_moved (suc (suc (suc k))) h = absurd (omega arith)

pub cycle-IsSound : IsSound cycle
unfolding size space_size
cycle-IsSound = record {
  whole = refl;
  small = omega arith;
  paired = refl;
  fits = omega arith;
  words = cycle_words;
  not_moved = cycle_not_moved;
  code = code-IsRoot;
  stack = never-IsRoot;
  false_cons = never-IsRoot;
  register = never-IsRoot;
}

-- The number five.
pub five-IsHeld : IsHeld cycle 11
unfolding is_cons
five-IsHeld = record { word = omega arith; target = number refl }

pub five-not_moved : Value.eq 11 Cons.never ≡ false
unfolding Value.eq Cons.never
five-not_moved = refl

pub cycle_room : cycle.allocation_index + 2 < space_size cycle
unfolding space_size size
cycle_room = omega arith
