-- ===== src/Vm/Machine/Instructions/Sound.antt =====
-- The instructions of vm/src/vm.rs that load and store, in a sound memory.
use mathlib.Core.Bool.{false≢true}
use wispy_vm.Prelude.{◌≡◌, refl, sym, ap, ◌+◌, ◌*◌, ◌∙◌, inl, inr, true}
use wispy_vm.Vm.Cons.{Cons}
use wispy_vm.Vm.Machine.Instructions.{operand, operand_cons, constant, get, set}
use wispy_vm.Vm.Memory.{Memory, ok, space_size, allocation_start, size, car}
use wispy_vm.Vm.Memory.Cells.{
  car_word, cdr_word, car-run, cdr-run, car_word-IsHeld, cdr_word-IsHeld, car_word_fresh, stored,
  set_car-run, IsSound-stored, car-stored,
}
use wispy_vm.Vm.Memory.Gc.Grow.{IsHeld}
use wispy_vm.Vm.Memory.Gc.Relocate.{Target, Ref, number, pointer}
use wispy_vm.Vm.Memory.Gc.Sound.{IsCell, IsRoot, IsSound, cells}
use wispy_vm.Vm.Memory.Stack.{push, pop}
use wispy_vm.Vm.Memory.Stack.Sound.{with_stack, stack-IsSound, Pushes, push-IsSound}
use wispy_vm.Vm.Value.{Value}
use wispy_vm.Vm.ValueInner.{is_cons}

module _ (m : Memory) (s : IsSound m) where
  -- In a sound memory whose code is an allocated cell, a constant is pushed and the memory stays
  -- sound, unless the space was used up before it, which is the error.
  pub constant-IsSound :
      (code : IsCell m m.code)
      → Pushes m s
          (car_word m s m.code code)
          (car_word-IsHeld m s m.code code)
          (car_word_fresh m s m.code code)
          constant
  unfolding constant operand
  constant-IsSound code =
      let run = car-run m s m.code code in
      elim (push-IsSound m s (car_word m s m.code code) (car_word-IsHeld m s m.code code)
        (car_word_fresh m s m.code code)) [
          | inl (full, e) ↦ inl (full, rw run e)
          | inr (room, (p, e, pushed)) ↦ inr (room, (p, rw run e, pushed))
        ]

  -- In a sound memory, where the variable of the operand is an allocated cell, the instruction pushes
  -- its value: it is the out-of-memory error exactly when the space was used up before it, and else
  -- leaves a sound memory, whose stack is a new cell with the value and the old stack, or the relocation
  -- of it where the space is used up by it.
  pub get-IsSound :
      (c : Cons)
      → operand_cons m ≡ ok c m
      → (variable : IsCell m c)
      → (car c m ≡ ok (car_word m s c variable) m)
        × (get m ≡ push (car_word m s c variable) m)
        × Pushes m s
            (car_word m s c variable)
            (car_word-IsHeld m s c variable)
            (car_word_fresh m s c variable)
            get
  unfolding get
  get-IsSound c operand variable =
      let run = car-run m s c variable in
      let same : get m ≡ push (car_word m s c variable) m = rw (operand, run) refl in
      (
        run,
        same,
        elim (push-IsSound m s (car_word m s c variable) (car_word-IsHeld m s c variable)
            (car_word_fresh m s c variable)) [
              | inl (full, e) ↦ inl (full, same ∙ e)
              | inr (room, (p, e, pushed)) ↦ inr (room, (p, same ∙ e, pushed))
            ],
      )

  pub cons-target :
      {v : Value}
      → Ref (allocation_start m) (cells m) v
      → is_cons v ≡ true
      → Target (allocation_start m) (cells m) v
  cons-target (number e) c = absurd (false≢true (sym e ∙ c))
  cons-target (pointer _ t) c = t

  module _ (top : IsCell m m.stack) (below : is_cons (cdr_word m s m.stack top) ≡ true) where
    abbrev pub rest : Cons
    rest = cdr_word m s m.stack top

    rest-IsRoot : IsRoot m rest
    rest-IsRoot =
        let h = cdr_word-IsHeld m s m.stack top in
        record { word = h.word; cons = below; target = cons-target h.target below }

    abbrev pub popped : Memory
    popped = with_stack m rest

    pub pop-run : pop m ≡ ok (car_word m s m.stack top) popped
    unfolding pop
    pop-run = rw (car-run m s m.stack top, cdr-run m s m.stack top)

    pub popped-IsSound : IsSound popped
    popped-IsSound = stack-IsSound m rest s rest-IsRoot

    pub start-popped : allocation_start popped ≡ allocation_start m
    unfolding allocation_start space_size size
    start-popped = refl

    abbrev pub popped-IsCell : {c : Cons} → IsCell m c → IsCell popped c
    popped-IsCell h = record {
      number = h.number;
      allocated = h.allocated;
      at = h.at ∙ ap (λ n. n + 2 * h.number) (sym start-popped);
    }

    pub popped-IsHeld : {v : Value} → IsHeld m v → IsHeld popped v
    unfolding allocation_start space_size size
    popped-IsHeld h = record { word = h.word; target = h.target }

    -- In a sound memory, where the variable of the operand is an allocated cell and so is the top of
    -- the stack, whose rest is no number, the value on the stack is popped and is the value of the
    -- variable after it, and the memory stays sound.
    pub set-IsSound :
        (c : Cons)
        → operand_cons m ≡ ok c m
        → IsCell m c
        → (v : Value) × (car m.stack m ≡ ok v m)
          × ((m' : Memory) × (set m ≡ ok tt m')
              × IsSound m'
              × (car c m' ≡ ok v m')
              × (m'.stack ≡ cdr_word m s m.stack top))
    unfolding set
    set-IsSound c operand variable =
        let v = car_word m s m.stack top in
        let here = popped-IsCell variable in
        let hv = popped-IsHeld (car_word-IsHeld m s m.stack top) in
        let fresh = car_word_fresh m s m.stack top in
        (
          v,
          car-run m s m.stack top,
          (
            stored popped popped-IsSound c here v hv fresh,
            rw (operand, pop-run) (set_car-run popped popped-IsSound c here v hv fresh),
            IsSound-stored popped popped-IsSound c here v hv fresh,
            car-stored popped popped-IsSound c here v hv fresh,
            refl,
          ),
        )
