-- ===== src/Vm/Memory/Gc/Grow.antt =====
-- A memory of vm/src/memory.rs with one more cell.
use wispy_vm.Prelude.{
  ℕ, suc, ◌+◌, ◌*◌, ◌/◌, ◌^◌, ◌≤◌, ◌<◌, ◌≡◌, refl, sym, ap, ◌∙◌, subst, false, arith, length,
}
use native.Mathlib.Decide.{ℕ_discrete, dec_lt}
use wispy_vm.Vm.ValueInner.{IsWord}
use wispy_vm.Vm.Cons
use wispy_vm.Vm.Cons.{Cons, index-new, is_cons-new, new-IsWord}
use wispy_vm.Vm.Value.{Value}
use wispy_vm.Vm.Memory.{
  Memory, ok, size, space_size, allocation_start, allocation_end, allocate_unchecked,
}
use wispy_vm.Vm.Memory.Access.{
  word_at, set_cell, length-set_cell, get_or-set_cell, allocate_unchecked-ok,
}
use wispy_vm.Vm.Memory.Gc.Relocate.{Target, nowhere, cell, Ref, number, pointer, is_moved}
use wispy_vm.Vm.Memory.Gc.Sound.{IsRoot, IsSound, cells}

-- A value that the memory can hold: a number, or a cons that is allocated or the null pointer.
pub record IsHeld (m : Memory) (v : Value) : Type 0 where
  pub word : IsWord v
  pub target : Ref (allocation_start m) (cells m) v

Target-more : {start n n' : ℕ} {v : Value} → n ≤ n' → Target start n v → Target start n' v
Target-more h (nowhere e) = nowhere e
Target-more h (cell k hk e) = cell k (omega arith) e

Ref-more : {start n n' : ℕ} {v : Value} → n ≤ n' → Ref start n v → Ref start n' v
Ref-more h (number e) = number e
Ref-more h (pointer c t) = pointer c (Target-more h t)

-- The memory with one more cell, written behind the others.
abbrev pub grown : Memory → Value → Value → Memory
grown m a d = record m {
  allocation_index = m.allocation_index + 2;
  heap = set_cell m.heap (allocation_end m) a d;
}

module _ (m : Memory) (s : IsSound m) (room : m.allocation_index < space_size m) (a d : Value) where
  fits-grown : m.allocation_index + 2 ≤ space_size m
  unfolding space_size
  fits-grown = omega (arith, s.whole, s.paired, room)

  pub inside : allocation_end m + 1 < length m.heap
  unfolding allocation_end allocation_start space_size size
  inside = ground (arith, fits-grown)

  pub address : allocation_end m < 2 ^ 47
  unfolding size
  address = omega (arith, inside, s.small)

  pub size-grown : size (grown m a d) ≡ size m
  unfolding size
  size-grown = length-set_cell m.heap (allocation_end m) a d

  pub start-grown : allocation_start (grown m a d) ≡ allocation_start m
  unfolding allocation_start space_size
  start-grown = rw size-grown refl

  pub cells-grown : cells (grown m a d) ≡ suc (cells m)
  cells-grown = omega (arith, s.paired)

  pub space-grown : space_size (grown m a d) ≡ space_size m
  unfolding space_size
  space-grown = ap (λ n. n / 2) size-grown

  pub at-end : allocation_end m ≡ allocation_start m + 2 * cells m
  unfolding allocation_end
  at-end = omega (arith, s.paired)

  -- The words behind the old ones are the fields of the new cell.
  word_old :
      (i : ℕ)
      → i < m.allocation_index
      → word_at (grown m a d) (allocation_start m + i) ≡ word_at m (allocation_start m + i)
  unfolding allocation_end
  word_old i hi =
      get_or-set_cell m.heap (allocation_end m) (allocation_start m + i) a d inside ∙ ground arith

  pub word_car : word_at (grown m a d) (allocation_start m + m.allocation_index) ≡ a
  unfolding allocation_end
  word_car =
      get_or-set_cell m.heap (allocation_end m) (allocation_start m + m.allocation_index) a d inside
      ∙ ground arith

  pub word_cdr : word_at (grown m a d) (allocation_start m + suc m.allocation_index) ≡ d
  unfolding allocation_end
  word_cdr =
      get_or-set_cell m.heap (allocation_end m) (allocation_start m + suc m.allocation_index) a d
        inside
      ∙ ground arith

  module _ (ha : IsHeld m a) (fresh : is_moved a ≡ false) (hd : IsHeld m d) where
    abbrev Held : Value → Type 0
    Held v = IsWord v × Ref (allocation_start m) (suc (cells m)) v

    held : {v : Value} → IsHeld m v → Held v
    held h = (h.word, Ref-more (omega arith) h.target)

    Held-word :
        (i : ℕ) → i < m.allocation_index + 2 → Held (word_at (grown m a d) (allocation_start m + i))
    Held-word i hi = elim (dec_lt i m.allocation_index) [
      | yes below ↦
          let (w, t) = s.words i below in
          subst Held (sym (word_old i below)) (w, Ref-more (omega arith) t)
      | no above ↦ elim (ℕ_discrete i m.allocation_index) [
        | yes e ↦
            subst (λ j. Held (word_at (grown m a d) (allocation_start m + j))) (sym e)
              (subst Held (sym word_car) (held ha))
        | no ne ↦
            let e : suc m.allocation_index ≡ i = omega (arith, ne, above) in
            subst (λ j. Held (word_at (grown m a d) (allocation_start m + j))) e
              (subst Held (sym word_cdr) (held hd))
      ]
    ]

    words-grown :
        (i : ℕ)
        → i < (grown m a d).allocation_index
        → IsWord (word_at (grown m a d) (allocation_start (grown m a d) + i))
          × Ref
              (allocation_start (grown m a d))
              (cells (grown m a d))
              (word_at (grown m a d) (allocation_start (grown m a d) + i))
    words-grown i hi =
        subst
          (λ b.
            IsWord (word_at (grown m a d) (b + i))
            × Ref b (cells (grown m a d)) (word_at (grown m a d) (b + i)))
          (sym start-grown)
          (subst
            (λ n.
              IsWord (word_at (grown m a d) (allocation_start m + i))
              × Ref (allocation_start m) n (word_at (grown m a d) (allocation_start m + i)))
            (sym cells-grown) (Held-word i hi))

    not_moved-grown :
        (k : ℕ)
        → k < cells (grown m a d)
        → is_moved (word_at (grown m a d) (allocation_start (grown m a d) + 2 * k)) ≡ false
    not_moved-grown k hk = rw start-grown (elim (ℕ_discrete (2 * k) m.allocation_index) [
      | yes e ↦ rw (e, word_car) fresh
      | no ne ↦
          rw (word_old (2 * k) (omega (arith, ne, hk, s.paired)))
            (s.not_moved k (omega (arith, ne, hk, s.paired)))
    ])

    pub IsRoot-grown : {c : Cons} → IsRoot m c → IsRoot (grown m a d) c
    IsRoot-grown r = record {
      word = r.word;
      cons = r.cons;
      target = rw (start-grown, cells-grown) (Target-more (omega arith) r.target);
    }

    pub new_cell-IsRoot : IsRoot (grown m a d) (Cons.new (allocation_end m))
    new_cell-IsRoot = record {
      word = new-IsWord (allocation_end m);
      cons = is_cons-new (allocation_end m);
      target =
          rw (start-grown, cells-grown)
            (cell (cells m) (omega arith) (index-new (allocation_end m) address ∙ at-end));
    }

    pub IsSound-grown : IsSound (grown m a d)
    IsSound-grown = record {
      whole = rw size-grown s.whole;
      small = rw size-grown s.small;
      paired = omega (arith, s.paired);
      fits = omega (arith, fits-grown, space-grown);
      words = words-grown;
      not_moved = not_moved-grown;
      code = IsRoot-grown s.code;
      stack = IsRoot-grown s.stack;
      false_cons = IsRoot-grown s.false_cons;
      register = IsRoot-grown s.register;
    }

    pub allocate-run : allocate_unchecked a d m ≡ ok (Cons.new (allocation_end m)) (grown m a d)
    allocate-run = allocate_unchecked-ok a d m room inside address
