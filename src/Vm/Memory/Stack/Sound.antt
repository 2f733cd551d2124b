-- ===== src/Vm/Memory/Stack/Sound.antt =====
-- `cons` and `push` of vm/src/memory.rs keep a memory sound, and `pop` undoes `push`.
use wispy_vm.Prelude.{suc, ◌+◌, ◌≤◌, ◌<◌, ◌≡◌, ◌⊎◌, refl, inl, inr, ◌∙◌, false, arith, leb, length}
use wispy_vm.Vm.Error.{Error}
use wispy_vm.Vm.Tags.{pair_type}
use wispy_vm.Vm.Cons
use wispy_vm.Vm.Cons.{
  Cons, Tag, IsAddress, index-new, index-set_tag, is_cons-new, is_cons-set_tag, set_tag-IsWord,
  new-IsWord, never-IsWord, index-never,
}
use wispy_vm.Vm.Value.{Value}
use wispy_vm.Vm.Memory.{
  Memory, M, ok, err, ◌>>◌, size, space_size, allocation_start, allocation_end, is_out_of_memory,
  car, cdr,
}
use wispy_vm.Vm.Memory.Access.{length-set_cell, get-ok}
use wispy_vm.Vm.Memory.Gc.{allocate}
use wispy_vm.Vm.Memory.Gc.Allocate.{Added, Moved, allocate-IsSound}
use wispy_vm.Vm.Memory.Gc.Relocate.{Target, nowhere, cell, pointer, is_moved}
use wispy_vm.Vm.Memory.Gc.Sound.{IsRoot, IsSound, cells}
use wispy_vm.Vm.Memory.Gc.Grow.{
  IsHeld, grown, allocate-run, word_car, word_cdr, at-end, inside, address, space-grown,
}
use wispy_vm.Vm.Memory.Stack.{cons, push, pop}

pub IsRoot-set_tag : {m : Memory} {c : Cons} (t : Tag) → IsRoot m c → IsRoot m (Cons.set_tag c t)
IsRoot-set_tag {m} {c} t r = record {
  word = set_tag-IsWord c t;
  cons = is_cons-set_tag c t;
  target = go r.target;
}
  where
    go :
        Target (allocation_start m) (cells m) c
        → Target (allocation_start m) (cells m) (Cons.set_tag c t)
    go (nowhere e) = nowhere (index-set_tag c t r.word ∙ e)
    go (cell k hk e) = cell k hk (index-set_tag c t r.word ∙ e)

pub IsRoot-IsHeld : {m : Memory} {c : Cons} → IsRoot m c → IsHeld m c
IsRoot-IsHeld r = record { word = r.word; target = pointer r.cons r.target }

-- The memory with another stack.
abbrev pub with_stack : Memory → Cons → Memory
with_stack m c = record m { stack = c }

pub stack-IsSound : (m : Memory) (c : Cons) → IsSound m → IsRoot m c → IsSound (with_stack m c)
unfolding size space_size allocation_start
stack-IsSound m c s r = record {
  whole = s.whole;
  small = s.small;
  paired = s.paired;
  fits = s.fits;
  words = s.words;
  not_moved = s.not_moved;
  code = record { word = s.code.word; cons = s.code.cons; target = s.code.target };
  stack = record { word = r.word; cons = r.cons; target = r.target };
  false_cons = record {
    word = s.false_cons.word;
    cons = s.false_cons.cons;
    target = s.false_cons.target;
  };
  register = record { word = s.register.word; cons = s.register.cons; target = s.register.target };
}

module _ (m : Memory) (s : IsSound m) (v : Value) (hv : IsHeld m v)
    (fresh : is_moved v ≡ false) where
  -- The old stack, as the rest of a new cell.
  abbrev pub under : Cons
  under = Cons.set_tag m.stack pair_type

  pub under-IsHeld : IsHeld m under
  under-IsHeld = IsRoot-IsHeld (IsRoot-set_tag pair_type s.stack)

  -- The stack is a new cell with the value and the old stack, in a sound memory: the one with this cell,
  -- or what a collection leaves of it.
  pub record IsPushed (room : m.allocation_index < space_size m) (p : Memory) : Type 0 where
    pub memory : Memory
    pub stack : p ≡ with_stack memory p.stack
    pub sound : IsSound p
    pub cell :
        Added m s v under hv fresh under-IsHeld p.stack memory
        ⊎ Moved m s v under hv fresh under-IsHeld room p.stack memory

  -- The step pushes the value, and is the error exactly when the space was used up.
  abbrev pub Pushes : M (Unit {0}) → Type 0
  Pushes step =
      ((space_size m ≤ m.allocation_index) × (step m ≡ err Error.out_of_memory m))
      ⊎ ((room : m.allocation_index < space_size m) × ((p : Memory) × (step m ≡ ok tt p)
            × IsPushed room p))

  -- A push into a sound memory, of a value that it holds and that is not the null pointer, is the
  -- error when the space was used up before it. Else it leaves a sound memory, whose stack is a new cell
  -- with the value and the old stack, or the relocation of it where the space is used up by it.
  pub push-IsSound : Pushes (push v)
  unfolding push cons
  push-IsSound = elim (allocate-IsSound m s v under hv fresh under-IsHeld) [
    | inl (full, run) ↦ inl (full, rw run)
    | inr (room, (c, m', run, s', r, holds)) ↦ inr (
      room,
      (
        with_stack m' c,
        rw run,
        record { memory = m'; stack = refl; sound = stack-IsSound m' c s' r; cell = holds },
      ),
    )
  ]

module _ (m : Memory) (s : IsSound m) (v : Value) (hv : IsHeld m v) (fresh : is_moved v ≡ false)
    (room : m.allocation_index + 2 < space_size m) where
  -- The new cell has the old stack as its rest, with the tag of a pair.
  abbrev pub below : Cons
  below = Cons.set_tag m.stack pair_type

  abbrev pushed : Memory
  pushed = with_stack (grown m v below) (Cons.new (allocation_end m))

  cons-run : cons v m.stack m ≡ ok (Cons.new (allocation_end m)) (grown m v below)
  unfolding cons allocate is_out_of_memory
  cons-run =
      let before : m.allocation_index < space_size m = omega arith in
      let left : leb (space_size (grown m v below)) (m.allocation_index + 2) ≡ false =
        ground (arith, space-grown m s before v below) in
      rw (
        allocate-run m s before v below hv fresh (IsRoot-IsHeld (IsRoot-set_tag pair_type s.stack)),
        left,
      )

  index-top : Cons.index (Cons.new (allocation_end m)) ≡ allocation_start m + m.allocation_index
  index-top =
      index-new (allocation_end m) (address m s (omega arith) v below)
      ∙ at-end m s (omega arith) v below
      ∙ omega (arith, s.paired)

  inside-pushed : allocation_start m + suc m.allocation_index < length pushed.heap
  inside-pushed =
      omega
        (arith, inside m s (omega arith) v below, at-end m s (omega arith) v below, s.paired, same)
    where
      same : length pushed.heap ≡ length m.heap
      same = length-set_cell m.heap (allocation_end m) v below

  car-top : car pushed.stack pushed ≡ ok v pushed
  unfolding car
  car-top = rw (
    index-top,
    get-ok (allocation_start m + m.allocation_index) pushed (omega (arith, inside-pushed)),
    word_car m s (omega arith) v below,
  )

  cdr-top : cdr pushed.stack pushed ≡ ok below pushed
  unfolding cdr
  cdr-top =
      let at : Cons.index pushed.stack + 1 ≡ allocation_start m + suc m.allocation_index =
        omega (arith, index-top) in
      rw (
        at,
        get-ok (allocation_start m + suc m.allocation_index) pushed inside-pushed,
        word_cdr m s (omega arith) v below,
      )

  pub push-run : push v m ≡ ok tt pushed
  unfolding push
  push-run = rw cons-run

  pub pop-run : pop pushed ≡ ok v (with_stack (grown m v below) below)
  unfolding pop
  pop-run = rw (car-top, cdr-top)

  -- In a sound memory with room for a cell and more, so that no collection comes between, a pop after
  -- a push of a value that it holds and that is not the null pointer returns the value, and the stack
  -- is the old one with the tag of a pair.
  pub pop-push : (push v >> pop) m ≡ ok v (with_stack (grown m v below) below)
  pop-push = rw (push-run, pop-run)
