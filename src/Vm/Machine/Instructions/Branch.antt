-- ===== src/Vm/Machine/Instructions/Branch.antt =====
-- The `if` instruction of vm/src/vm.rs, in a sound memory.
use wispy_vm.Prelude.{◌≡◌, ◌⊎◌, refl, inl, inr, true, false, Bool-cases}
use wispy_vm.Vm.Cons.{Cons}
use wispy_vm.Vm.Machine.Instructions.{operand, branch}
use wispy_vm.Vm.Machine.Instructions.Sound.{
  popped, pop-run, popped-IsSound, popped-IsCell, popped-IsHeld,
}
use wispy_vm.Vm.Memory.{Memory, ok, size, space_size, allocation_start, car, cdr}
use wispy_vm.Vm.Memory.Cells.{car_word, cdr_word, car-run, car_word-IsHeld}
use wispy_vm.Vm.Memory.Cells.Link.{linked, set_cdr-run, IsSound-linked, cdr-linked, IsRoot-linked}
use wispy_vm.Vm.Memory.Gc.Grow.{IsHeld}
use wispy_vm.Vm.Memory.Gc.Sound.{IsCell, IsRoot, IsSound}
use wispy_vm.Vm.Memory.Stack.{boolean}
use wispy_vm.Vm.Memory.Stack.Sound.{with_stack}
use wispy_vm.Vm.Value
use wispy_vm.Vm.Value.{Value}
use wispy_vm.Vm.ValueInner.{is_cons}

-- The memory with other code.
abbrev pub with_code : Memory → Cons → Memory
with_code m c = record m { code = c }

pub code-IsSound : (m : Memory) (c : Cons) → IsSound m → IsRoot m c → IsSound (with_code m c)
unfolding size space_size allocation_start
code-IsSound m c s r = record {
  whole = s.whole;
  small = s.small;
  paired = s.paired;
  fits = s.fits;
  words = s.words;
  not_moved = s.not_moved;
  code = record { word = r.word; cons = r.cons; target = r.target };
  stack = record { word = s.stack.word; cons = s.stack.cons; target = s.stack.target };
  false_cons = record {
    word = s.false_cons.word;
    cons = s.false_cons.cons;
    target = s.false_cons.target;
  };
  register = record { word = s.register.word; cons = s.register.cons; target = s.register.target };
}

module _ (m : Memory) (s : IsSound m) (top : IsCell m m.stack)
    (below : is_cons (cdr_word m s m.stack top) ≡ true) (code : IsCell m m.code) where
  abbrev after : Memory
  after = popped m s top below

  after-IsSound : IsSound after
  after-IsSound = popped-IsSound m s top below

  abbrev reused : IsCell after m.stack
  reused = popped-IsCell m s top below top

  target-IsHeld : IsHeld after (car_word m s m.code code)
  target-IsHeld = popped-IsHeld m s top below (car_word-IsHeld m s m.code code)

  abbrev branched : Memory
  branched =
      with_code (linked after after-IsSound m.stack reused (car_word m s m.code code) target-IsHeld)
        m.stack

  top-IsRoot : IsRoot after m.stack
  unfolding size space_size allocation_start
  top-IsRoot = record { word = s.stack.word; cons = s.stack.cons; target = s.stack.target }

  branched-IsSound : IsSound branched
  branched-IsSound =
      code-IsSound
        (linked after after-IsSound m.stack reused (car_word m s m.code code) target-IsHeld) m.stack
        (IsSound-linked after after-IsSound m.stack reused (car_word m s m.code code) target-IsHeld)
        (IsRoot-linked after after-IsSound m.stack reused (car_word m s m.code code) target-IsHeld
          top-IsRoot)

  operand-after : operand after ≡ ok (car_word m s m.code code) after
  unfolding operand allocation_start space_size size
  operand-after = car-run after after-IsSound m.code (popped-IsCell m s top below code)

  -- In a sound memory, where the code is an allocated cell and so is the top of the stack, whose rest
  -- is no number, the value on the stack is popped. If it is the false value, nothing else changes;
  -- if not, the cell that was popped is the code after it, and leads to the operand with the tag that
  -- its rest had. The memory stays sound.
  pub branch-IsSound :
      (v : Value) × (car m.stack m ≡ ok v m)
      × (((Value.eq v m.false_cons ≡ true)
            × (branch m ≡ ok tt (with_stack m (cdr_word m s m.stack top)))
            × IsSound (with_stack m (cdr_word m s m.stack top)))
          ⊎ ((Value.eq v m.false_cons ≡ false)
              × ((m' : Memory) × (branch m ≡ ok tt m')
                  × IsSound m'
                  × (m'.code ≡ m.stack)
                  × (m'.stack ≡ cdr_word m s m.stack top)
                  × (cdr m.stack m'
                      ≡ ok
                          (Value.set_tag
                            (car_word m s m.code code)
                            (Value.tag (cdr_word m s m.stack top)))
                          m'))))
  unfolding branch boolean allocation_start space_size size
  branch-IsSound =
      let v = car_word m s m.stack top in
      (
        v,
        car-run m s m.stack top,
        elim (Bool-cases (Value.eq v m.false_cons)) [
          | inl e ↦ inl (e, rw (pop-run m s top below, e) refl, after-IsSound)
          | inr e ↦ inr (
            e,
            (
              branched,
              rw
                  (
                    pop-run m s top below,
                    e,
                    operand-after,
                    set_cdr-run after after-IsSound m.stack reused (car_word m s m.code code)
                        target-IsHeld,
                  )
                  refl,
              branched-IsSound,
              refl,
              refl,
              cdr-linked after after-IsSound m.stack reused (car_word m s m.code code) target-IsHeld
                  m.stack,
            ),
          )
        ],
      )
