-- ===== src/Native/List/Tests.antt =====
-- A list of two numbers in memory, and the theorems of native/src/list.rs at it.
use wispy_vm.Prelude.{◌≡◌, ◌⊎◌, refl, false, none, some, List, [], ◌∷◌, arith}
use wispy_vm.Vm.Cons
use wispy_vm.Vm.Cons.{Cons}
use wispy_vm.Vm.Value.{Value}
use wispy_vm.Vm.Memory.{Memory, ok, get, car, cdr}
use wispy_vm.Vm.Memory.Stack.{null}
use wispy_vm.Native.List.{memq_loop}
use wispy_vm.Native.List.Search.{IsList, end, next, first_tail, memq_loop-IsList}

-- The cells at the addresses 0 and 2 are null and false; the list starts at 4.
abbrev lists : Memory
lists = record {
  code = 131072;
  stack = 131072;
  false_cons = 262144;
  register = 131072;
  allocation_index = 8;
  space = false;
  heap = 1 ∷ 1 ∷ 0 ∷ 0 ∷ 3 ∷ 786432 ∷ 5 ∷ 0 ∷ 0 ∷ 0 ∷ 0 ∷ 0 ∷ 0 ∷ 0 ∷ 0 ∷ 0 ∷ [];
}

null-lists : null lists ≡ ok 0 lists
unfolding null car get Cons.index
null-lists = refl

two-IsList : IsList lists 0 524288 (3 ∷ 5 ∷ [])
unfolding Cons.eq car cdr get Cons.index
two-IsList = next refl refl refl (next {rest = 0} refl refl refl (end refl))

memq_loop-IsList_example :
    ((first_tail 5 (3 ∷ 5 ∷ []) ≡ none) × (memq_loop 3 5 524288 262144 lists ≡ ok 262144 lists))
    ⊎ ((c : Cons) × (tail : List Value) × (first_tail 5 (3 ∷ 5 ∷ []) ≡ some tail)
        × (memq_loop 3 5 524288 262144 lists ≡ ok c lists)
        × IsList lists 0 c tail)
memq_loop-IsList_example =
    memq_loop-IsList lists 0 null-lists 3 5 262144 524288 (3 ∷ 5 ∷ []) two-IsList (omega arith)
