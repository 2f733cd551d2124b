-- ===== src/Vm/Memory/Cells.antt =====
-- Reads and writes of the allocated cells of a sound memory of vm/src/memory.rs.
pub mod Link
use wispy_vm.Prelude.{
  ℕ, suc, ◌+◌, ◌*◌, ◌%◌, ◌/◌, ◌<◌, ◌≡◌, ◌≢◌, refl, sym, ap, ◌∙◌, true, false, arith, ◌==◌, length,
  length-set, get_or-set, set as set_at, if◌then◌else◌, Bool-cases, inl, inr,
}
use wispy_vm.Vm.Cons
use wispy_vm.Vm.Cons.{Cons}
use wispy_vm.Vm.Memory
use wispy_vm.Vm.Memory.{
  Memory, ok, size, space_size, allocation_start, car, cdr, set_car, set_cdr, set_field,
}
use wispy_vm.Vm.Memory.Access.{word_at, with_heap, get-ok, set-ok, set_car-ok}
use wispy_vm.Vm.Memory.Gc.Grow.{IsHeld}
use wispy_vm.Vm.Memory.Gc.Relocate.{Ref, number, pointer, is_moved}
use wispy_vm.Vm.Memory.Gc.Sound.{IsRoot, IsSound, IsCell, cells}
use wispy_vm.Vm.Value
use wispy_vm.Vm.Value.{Value}
use wispy_vm.Vm.Memory.Stack.Sound.{IsRoot-IsHeld, IsRoot-set_tag}
use wispy_vm.Vm.ValueInner.{IsWord, is_cons}

module _ (m : Memory) (s : IsSound m) (j : ℕ) (below : j < m.allocation_index) where
  -- A word of an allocated cell is in the heap.
  pub in_heap : allocation_start m + j < length m.heap
  unfolding allocation_start space_size size
  in_heap = ground (arith, s.fits)

  pub word-IsHeld : IsHeld m (word_at m (allocation_start m + j))
  word-IsHeld = let (w, t) = s.words j below in record { word = w; target = t }

  module _ (v : Value) (hv : IsHeld m v) (fresh : j % 2 ≡ 0 → is_moved v ≡ false) where
    abbrev written : Memory
    written = with_heap m (set_at m.heap (allocation_start m + j) v)

    size-written : size written ≡ size m
    unfolding size
    size-written = length-set m.heap (allocation_start m + j) v

    start-written : allocation_start written ≡ allocation_start m
    unfolding allocation_start space_size
    start-written = rw size-written refl

    space-written : space_size written ≡ space_size m
    unfolding space_size
    space-written = ap (λ n. n / 2) size-written

    pub word-written :
        (i : ℕ)
        → word_at written (allocation_start m + i)
          ≡ (if j == i then v else word_at m (allocation_start m + i))
    word-written i =
        get_or-set m.heap (allocation_start m + j) (allocation_start m + i) v 0 in_heap
        ∙ ground arith

    words-written :
        (i : ℕ)
        → i < m.allocation_index
        → IsWord (word_at written (allocation_start written + i))
          × Ref
              (allocation_start written)
              (cells m)
              (word_at written (allocation_start written + i))
    words-written i hi =
        rw (start-written, word-written i)
          (elim (Bool-cases (j == i)) [
            | inl e ↦ rw e (hv.word, hv.target)
            | inr e ↦ rw e (s.words i hi)
          ])

    not_moved-written :
        (k : ℕ)
        → k < cells m
        → is_moved (word_at written (allocation_start written + 2 * k)) ≡ false
    not_moved-written k hk =
        rw (start-written, word-written (2 * k))
          (elim (Bool-cases (j == 2 * k)) [
            | inl e ↦ rw e (fresh (ground arith))
            | inr e ↦ rw e (s.not_moved k hk)
          ])

    pub IsRoot-written : {c : Cons} → IsRoot m c → IsRoot written c
    IsRoot-written r = record { word = r.word; cons = r.cons; target = rw start-written r.target }

    -- A write of a value that the memory holds keeps it sound.
    pub IsSound-written : IsSound written
    IsSound-written = record {
      whole = rw size-written s.whole;
      small = rw size-written s.small;
      paired = s.paired;
      fits = rw space-written s.fits;
      words = words-written;
      not_moved = not_moved-written;
      code = IsRoot-written s.code;
      stack = IsRoot-written s.stack;
      false_cons = IsRoot-written s.false_cons;
      register = IsRoot-written s.register;
    }

module _ (m : Memory) (s : IsSound m) (c : Cons) (is_cell : IsCell m c) where
  pub below_car : 2 * is_cell.number < m.allocation_index
  below_car = omega (arith, is_cell.allocated, s.paired)

  pub below_cdr : suc (2 * is_cell.number) < m.allocation_index
  below_cdr = omega (arith, is_cell.allocated, s.paired)

  abbrev pub car_word : Value
  car_word = word_at m (allocation_start m + 2 * is_cell.number)

  abbrev pub cdr_word : Value
  cdr_word = word_at m (allocation_start m + suc (2 * is_cell.number))

  pub car-run : car c m ≡ ok car_word m
  unfolding car
  car-run = rw is_cell.at (get-ok _ m (in_heap m s (2 * is_cell.number) below_car))

  pub car_word-IsHeld : IsHeld m car_word
  car_word-IsHeld = word-IsHeld m s (2 * is_cell.number) below_car

  pub car_word_fresh : is_moved car_word ≡ false
  car_word_fresh = s.not_moved is_cell.number is_cell.allocated

  pub cdr-run : cdr c m ≡ ok cdr_word m
  unfolding cdr
  cdr-run =
      let at : Cons.index c + 1 ≡ allocation_start m + suc (2 * is_cell.number) =
        omega (arith, is_cell.at) in
      rw at (
        get-ok (allocation_start m + suc (2 * is_cell.number)) m
          (in_heap m s (suc (2 * is_cell.number)) below_cdr))

  pub cdr_word-IsHeld : IsHeld m cdr_word
  cdr_word-IsHeld = word-IsHeld m s (suc (2 * is_cell.number)) below_cdr

  module _ (v : Value) (hv : IsHeld m v) (fresh : is_moved v ≡ false) where
    abbrev pub stored : Memory
    stored = with_heap m (set_at m.heap (allocation_start m + 2 * is_cell.number) v)

    pub set_car-run : set_car c v m ≡ ok tt stored
    set_car-run =
        set_car-ok c m (allocation_start m + 2 * is_cell.number) is_cell.at v
          (in_heap m s (2 * is_cell.number) below_car)

    pub IsSound-stored : IsSound stored
    IsSound-stored = IsSound-written m s (2 * is_cell.number) below_car v hv (λ _. fresh)

    pub IsCell-stored : {d : Cons} → IsCell m d → IsCell stored d
    IsCell-stored h = record {
      number = h.number;
      allocated = h.allocated;
      at =
          h.at
          ∙ ap (λ n. n + 2 * h.number)
              (sym (start-written m s (2 * is_cell.number) below_car v hv (λ _. fresh)));
    }

    pub car-stored : car c stored ≡ ok v stored
    unfolding car
    car-stored =
        let j = 2 * is_cell.number in
        let inside : allocation_start m + j < length stored.heap =
          omega (arith, in_heap m s j below_car, length-set m.heap (allocation_start m + j) v) in
        rw is_cell.at (
          get-ok (allocation_start m + j) stored inside
          ∙ ap (λ w. ok w stored) (word-written m s j below_car v hv (λ _. fresh) j ∙ ground arith))
