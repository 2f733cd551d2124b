-- ===== src/Vm/Memory/Cells/Link.antt =====
-- `set_cdr` of vm/src/memory.rs on an allocated cell of a sound memory.
use wispy_vm.Prelude.{
  ℕ, suc, ◌+◌, ◌*◌, ◌%◌, ◌<◌, ◌≡◌, ◌≢◌, refl, ap, ◌∙◌, true, false, arith, length, length-set,
  set as set_at,
}
use wispy_vm.Vm.Cons
use wispy_vm.Vm.Cons.{Cons}
use wispy_vm.Vm.Memory
use wispy_vm.Vm.Memory.{
  Memory, ok, size, space_size, allocation_start, car, cdr, set_car, set_cdr, set_field,
}
use wispy_vm.Vm.Memory.Access.{word_at, with_heap, get-ok, set-ok}
use wispy_vm.Vm.Memory.Gc.Grow.{IsHeld}
use wispy_vm.Vm.Memory.Gc.Relocate.{Ref, number, pointer, is_moved}
use wispy_vm.Vm.Memory.Gc.Sound.{IsCell, IsRoot, IsSound, cells}
use wispy_vm.Vm.Value
use wispy_vm.Vm.Value.{Value}
use wispy_vm.Vm.Memory.Stack.Sound.{IsRoot-IsHeld, IsRoot-set_tag}
use wispy_vm.Vm.ValueInner.{is_cons}
use wispy_vm.Vm.Memory.Cells.{
  in_heap, below_car, below_cdr, car_word, cdr_word, word-written, IsSound-written, IsRoot-written,
}

set_tag-number : (v : Value) (t : Cons.Tag) → is_cons v ≡ false → Value.set_tag v t ≡ v
unfolding Value.set_tag Value.to_cons Value.to_typed
set_tag-number v t e = rw (Value.set_tag, e) refl

set_tag-cons : (v : Value) (t : Cons.Tag) → is_cons v ≡ true → Value.set_tag v t ≡ Cons.set_tag v t
unfolding Value.set_tag Value.to_cons Value.to_typed
set_tag-cons v t e = rw (Value.set_tag, e) refl

IsHeld-set_tag : {m : Memory} (v : Value) (t : Cons.Tag) → IsHeld m v → IsHeld m (Value.set_tag v t)
IsHeld-set_tag {m} v t h = go h.target
  where
    go : Ref (allocation_start m) (cells m) v → IsHeld m (Value.set_tag v t)
    go (number e) = rw (set_tag-number v t e) h
    go (pointer e target) =
        rw (set_tag-cons v t e)
          (IsRoot-IsHeld (IsRoot-set_tag t (record { word = h.word; cons = e; target = target })))

module _ (m : Memory) (s : IsSound m) (c : Cons) (is_cell : IsCell m c) where
  module _ (v : Value) (hv : IsHeld m v) where
    -- The link keeps the tag that the field had.
    abbrev pub link : Value
    link = Value.set_tag v (Value.tag (cdr_word m s c is_cell))

    abbrev pub linked : Memory
    linked = with_heap m (set_at m.heap (allocation_start m + suc (2 * is_cell.number)) link)

    pub set_cdr-run : set_cdr c v m ≡ ok tt linked
    unfolding set_cdr set_field
    set_cdr-run =
        let j = suc (2 * is_cell.number) in
        let at : Cons.index c + 1 ≡ allocation_start m + j = omega (arith, is_cell.at) in
        let inside = in_heap m s j (below_cdr m s c is_cell) in
        rw at (
          rw (get-ok (allocation_start m + j) m inside)
            (set-ok (allocation_start m + j) link m inside))

    is_odd : suc (2 * is_cell.number) % 2 ≡ 0 → is_moved link ≡ false
    is_odd e = absurd (omega (arith, e))

    link-IsHeld : IsHeld m link
    link-IsHeld = IsHeld-set_tag v (Value.tag (cdr_word m s c is_cell)) hv

    pub IsSound-linked : IsSound linked
    IsSound-linked =
        IsSound-written m s (suc (2 * is_cell.number)) (below_cdr m s c is_cell) link link-IsHeld
          is_odd

    at-link : Cons.index c + 1 ≡ allocation_start m + suc (2 * is_cell.number)
    at-link = omega (arith, is_cell.at)

    inside-linked : allocation_start m + suc (2 * is_cell.number) < length linked.heap
    inside-linked =
        let j = suc (2 * is_cell.number) in
        omega (
          arith,
          in_heap m s j (below_cdr m s c is_cell),
          length-set m.heap (allocation_start m + j) link,
        )

    word-link : word_at linked (allocation_start m + suc (2 * is_cell.number)) ≡ link
    word-link =
        let j = suc (2 * is_cell.number) in
        word-written m s j (below_cdr m s c is_cell) link link-IsHeld is_odd j ∙ ground arith

    -- What the linked cell leads to, whatever the code.
    pub cdr-linked :
        (k : Cons) → cdr c (record linked { code = k }) ≡ ok link (record linked { code = k })
    unfolding cdr
    cdr-linked k = rw at-link (
        get-ok (allocation_start m + suc (2 * is_cell.number)) (record linked { code = k })
          inside-linked
        ∙ ap (λ w. ok w (record linked { code = k })) word-link)

    pub IsRoot-linked : {d : Cons} → IsRoot m d → IsRoot linked d
    IsRoot-linked r =
        IsRoot-written m s (suc (2 * is_cell.number)) (below_cdr m s c is_cell) link link-IsHeld
          is_odd r

    -- The other words are as they were.
    module _ (j : ℕ) (below : j < m.allocation_index)
        (apart : ◌≢◌ j (suc (2 * is_cell.number))) where
      inside-other : allocation_start m + j < length linked.heap
      inside-other = omega (
        arith,
        in_heap m s j below,
        length-set m.heap (allocation_start m + suc (2 * is_cell.number)) link,
      )

      get-other :
          (k : Cons)
          → Memory.get (allocation_start m + j) (record linked { code = k })
            ≡ ok (word_at m (allocation_start m + j)) (record linked { code = k })
      get-other k =
          get-ok (allocation_start m + j) (record linked { code = k }) inside-other
          ∙ ap (λ w. ok w (record linked { code = k }))
              (word-written m s (suc (2 * is_cell.number)) (below_cdr m s c is_cell) link
                  link-IsHeld is_odd j
                ∙ ground (arith, apart))

module _ (m : Memory) (s : IsSound m) (c d : Cons) (here : IsCell m c) (there : IsCell m d)
    (v : Value) (hv : IsHeld m v) (k : Cons) where
  abbrev coded : Memory
  coded = record (linked m s c here v hv) { code = k }

  pub car-other : car d coded ≡ ok (car_word m s d there) coded
  unfolding car
  car-other = rw there.at (
      get-other m s c here v hv (2 * there.number) (below_car m s d there) (λ e. omega (arith, e))
        k)

  pub cdr-other : ◌≢◌ there.number here.number → cdr d coded ≡ ok (cdr_word m s d there) coded
  unfolding cdr
  cdr-other apart =
      let at : Cons.index d + 1 ≡ allocation_start m + suc (2 * there.number) =
        omega (arith, there.at) in
      rw at (
        get-other m s c here v hv (suc (2 * there.number)) (below_cdr m s d there)
          (λ e. apart (omega (arith, e))) k)
