-- ===== src/Vm/Memory/Tests.antt =====
-- The theorems of vm/src/memory.rs at a small memory.
use wispy_vm.Prelude.{replicate, ◌≡◌, refl, Option, some, List, [], ◌∷◌, arith}
use wispy_vm.Vm.Cons
use wispy_vm.Vm.Cons.{Cons}
use wispy_vm.Vm.Value.{Value}
use wispy_vm.Vm.Memory.{
  allocate_unchecked, is_out_of_memory, allocation_end, bump, set_car, set_raw_cdr, set_field, set,
  allocation_start, Memory, ok, ◌>>◌, space_size,
}
use wispy_vm.Vm.Memory.Gc.{collect_garbages}
use wispy_vm.Vm.Memory.Gc.Sound.{IsSound}
use wispy_vm.Vm.Memory.Gc.Roots.{ExtraRoot}
use wispy_vm.Vm.Memory.Gc.Collect.{Collected, collect_garbages-Collected}
use wispy_vm.Vm.Memory.Gc.Preserve.{collect_garbages-IsSound}
use wispy_vm.Vm.Memory.Gc.Allocate.{Allocates, allocate-IsSound}
use wispy_vm.Vm.Memory.Gc.Grow.{grown}
use wispy_vm.Vm.Memory.Stack.{push, pop, new}
use wispy_vm.Vm.Memory.Stack.Sound.{pop-push, with_stack}
use wispy_vm.Vm.Memory.Stack.New.{new-IsSound}
use wispy_vm.Vm.Memory.Sample.{
  cycle, code-IsRoot, cycle-IsSound, five-IsHeld, five-not_moved, cycle_room,
}

collect_garbages-Collected_example :
    Collected cycle cycle-IsSound (some 0) (collect_garbages (some 0) cycle)
collect_garbages-Collected_example =
    collect_garbages-Collected cycle cycle-IsSound (some 0) code-IsRoot

collect_garbages-IsSound_example :
    (extra' : Option Cons) × (m' : Memory) × (collect_garbages (some 0) cycle ≡ ok extra' m')
    × IsSound m'
    × ExtraRoot m' extra'
collect_garbages-IsSound_example = collect_garbages-IsSound cycle cycle-IsSound (some 0) code-IsRoot

allocate-IsSound_example :
    Allocates cycle cycle-IsSound 11 11 five-IsHeld five-not_moved five-IsHeld
allocate-IsSound_example =
    allocate-IsSound cycle cycle-IsSound 11 11 five-IsHeld five-not_moved five-IsHeld

abbrev eight : List Value
eight = 0 ∷ 0 ∷ 0 ∷ 0 ∷ 0 ∷ 0 ∷ 0 ∷ 0 ∷ []

new-IsSound_example : (m : Memory) × (new eight ≡ ok tt m) × IsSound m
new-IsSound_example = new-IsSound eight refl (omega arith) (omega arith)

pop-push_example :
    (push 11 >> pop) cycle
    ≡ ok 11 (with_stack (grown cycle 11 (Cons.set_tag 131072 0)) (Cons.set_tag 131072 0))
pop-push_example = pop-push cycle cycle-IsSound 11 five-IsHeld five-not_moved cycle_room

-- Where the size of the heap is no multiple of four, the last cell of a space is written over its
-- border: a space of five words has six of them allocated.
odd_space :
    allocate_unchecked 3 5 (record cycle { allocation_index = 4; heap = replicate 10 1 })
    ≡ ok 524288
        (record cycle { allocation_index = 6; heap = 1 ∷ 1 ∷ 1 ∷ 1 ∷ 3 ∷ 5 ∷ 1 ∷ 1 ∷ 1 ∷ 1 ∷ [] })
unfolding allocate_unchecked is_out_of_memory space_size allocation_end bump set_car set_raw_cdr
    set_field set Cons.new Cons.index allocation_start
odd_space = refl
