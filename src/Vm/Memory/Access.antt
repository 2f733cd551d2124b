-- ===== src/Vm/Memory/Access.antt =====
-- The accesses of vm/src/memory.rs within the bounds of the heap.
use wispy_vm.Prelude.{
  ℕ, ◌+◌, ◌<◌, ◌≡◌, ◌∙◌, false, List, arith, leb, ◌==◌, length, get_or, get_or-set,
  get_elem?-eq-get_or, set as set_at, length-set, if◌then◌else◌,
}
use wispy_vm.Vm.Cons
use wispy_vm.Vm.Cons.{Cons, IsAddress, index-new}
use wispy_vm.Vm.Value.{Value}
use wispy_vm.Vm.Memory.{
  Memory, ok, get, set, set_field, set_car, set_raw_cdr, garbage_car, garbage_cdr, set_garbage_car,
  set_garbage_cdr, space_size, is_out_of_memory, allocation_end, allocate_unchecked, bump,
}

-- The word at an address, zero outside the heap.
abbrev pub word_at : Memory → ℕ → Value
word_at m i = get_or m.heap i 0

abbrev pub with_heap : Memory → List Value → Memory
with_heap m h = record m { heap = h }

pub get-ok : (i : ℕ) (m : Memory) → i < length m.heap → get i m ≡ ok (word_at m i) m
unfolding get
get-ok i m h = rw (get_elem?-eq-get_or m.heap i 0 h, get)

pub set-ok :
    (i : ℕ) (v : Value) (m : Memory)
    → i < length m.heap
    → set i v m ≡ ok tt (with_heap m (set_at m.heap i v))
unfolding set
set-ok i v m h = rw (get_elem?-eq-get_or m.heap i 0 h, set)

module _ (c : Cons) (m : Memory) where
  pub garbage_car-ok :
      Cons.index c < length m.heap → garbage_car c m ≡ ok (word_at m (Cons.index c)) m
  unfolding garbage_car
  garbage_car-ok h = get-ok (Cons.index c) m h

  pub garbage_cdr-ok :
      Cons.index c + 1 < length m.heap → garbage_cdr c m ≡ ok (word_at m (Cons.index c + 1)) m
  unfolding garbage_cdr
  garbage_cdr-ok h = get-ok (Cons.index c + 1) m h

  -- The cell is named by its address, since `index` is shut.
  module _ (e : ℕ) (at : Cons.index c ≡ e) (v : Value) where
    pub set_car-ok : e < length m.heap → set_car c v m ≡ ok tt (with_heap m (set_at m.heap e v))
    unfolding set_car set_field
    set_car-ok h = let same : Cons.index c + 0 ≡ e = omega arith in rw same (set-ok e v m h)

    pub set_raw_cdr-ok :
        e + 1 < length m.heap → set_raw_cdr c v m ≡ ok tt (with_heap m (set_at m.heap (e + 1) v))
    unfolding set_raw_cdr set_field
    set_raw_cdr-ok h = rw at (set-ok (e + 1) v m h)

    pub set_garbage_car-ok :
        e < length m.heap → set_garbage_car c v m ≡ ok tt (with_heap m (set_at m.heap e v))
    unfolding set_garbage_car set_field
    set_garbage_car-ok h = let same : Cons.index c + 0 ≡ e = omega arith in rw same (set-ok e v m h)

    pub set_garbage_cdr-ok :
        e + 1 < length m.heap
        → set_garbage_cdr c v m ≡ ok tt (with_heap m (set_at m.heap (e + 1) v))
    unfolding set_garbage_cdr set_field
    set_garbage_cdr-ok h = rw at (set-ok (e + 1) v m h)

-- What a cell holds after both of its fields are written.
abbrev pub set_cell : List Value → ℕ → Value → Value → List Value
set_cell h i a d = set_at (set_at h i a) (i + 1) d

pub length-set_cell : (h : List Value) (i : ℕ) (a d : Value) → length (set_cell h i a d) ≡ length h
length-set_cell h i a d = length-set (set_at h i a) (i + 1) d ∙ length-set h i a

pub get_or-set_cell :
    (h : List Value) (i j : ℕ) (a d : Value)
    → i + 1 < length h
    → get_or (set_cell h i a d) j 0 ≡ (if i + 1 == j then d else if i == j then a else get_or h j 0)
get_or-set_cell h i j a d b =
    rw (get_or-set (set_at h i a) (i + 1) j d 0 (omega (arith, length-set h i a)))
      (rw (get_or-set h i j a 0 (omega arith)))

-- Allocation within the space: the next cell is filled, and the index moves behind it.
pub allocate_unchecked-ok :
    (a d : Value) (m : Memory)
    → m.allocation_index < space_size m
    → allocation_end m + 1 < length m.heap
    → IsAddress (allocation_end m)
    → allocate_unchecked a d m
      ≡ ok (Cons.new (allocation_end m)) (record m {
        allocation_index = m.allocation_index + 2;
        heap = set_cell m.heap (allocation_end m) a d;
      })
unfolding allocate_unchecked is_out_of_memory bump
allocate_unchecked-ok a d m room inside small =
    let e = allocation_end m in
    let c = Cons.new e in
    let at : Cons.index c ≡ e = index-new e small in
    let some_left : leb (space_size m) m.allocation_index ≡ false = ground arith in
    rw (
      some_left,
      set_car-ok c (bump m) e at a (omega arith),
      set_raw_cdr-ok c (with_heap (bump m) (set_at m.heap e a)) e at d
          (omega (arith, length-set m.heap e a)),
    )
