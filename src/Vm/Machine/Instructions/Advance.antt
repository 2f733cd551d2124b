-- ===== src/Vm/Machine/Instructions/Advance.antt =====
-- The step to the next instruction in vm/src/vm.rs, in a sound memory.
use wispy_vm.Prelude.{ℕ, Bool, ◌≡◌, ◌≢◌, ◌⊎◌, refl, inl, inr, true, false, Bool-cases}
use wispy_vm.Vm.Cons
use wispy_vm.Vm.Cons.{Cons}
use wispy_vm.Vm.Machine.Instructions.{continuation, advance_code}
use wispy_vm.Vm.Machine.Instructions.Branch.{with_code, code-IsSound}
use wispy_vm.Vm.Machine.Instructions.Sound.{cons-target}
use wispy_vm.Vm.Memory.{Memory, ok, car, cdr, set_cdr}
use wispy_vm.Vm.Memory.Cells.{car_word, cdr_word, car-run, cdr-run, cdr_word-IsHeld}
use wispy_vm.Vm.Memory.Cells.Link.{
  linked, set_cdr-run, IsSound-linked, cdr-linked, IsRoot-linked, car-other, cdr-other,
}
use wispy_vm.Vm.Memory.Gc.Grow.{IsHeld}
use wispy_vm.Vm.Memory.Gc.Sound.{IsCell, IsRoot, IsSound}
use wispy_vm.Vm.Memory.Stack.{null}
use wispy_vm.Vm.Value
use wispy_vm.Vm.Value.{Value}
use wispy_vm.Vm.ValueInner.{is_cons}

module _ (m : Memory) (s : IsSound m) where
  -- The rest of a cell, where it is no number, is a cons of the memory.
  rest-IsRoot :
      (c : Cons) (h : IsCell m c) → is_cons (cdr_word m s c h) ≡ true → IsRoot m (cdr_word m s c h)
  rest-IsRoot c h e =
      let held = cdr_word-IsHeld m s c h in
      record { word = held.word; cons = e; target = cons-target m s held.target e }

  -- A frame to return to: the continuation is a cell, whose `car` is the call in the code of the caller,
  -- behind which there is code. The stack has a value on top, which is another cell than the call.
  pub record Returns (fuel : ℕ) : Type 0 where
    pub frame : Cons
    pub run : continuation fuel m ≡ ok frame m
    pub frame_cell : IsCell m frame
    pub caller_cell : IsCell m (car_word m s frame frame_cell)
    pub top : IsCell m m.stack
    pub apart : ◌≢◌ caller_cell.number top.number
    pub behind : is_cons (cdr_word m s (car_word m s frame frame_cell) caller_cell) ≡ true

  module _ (fuel : ℕ) (r : Returns fuel) where
    abbrev pub caller : Cons
    caller = car_word m s r.frame r.frame_cell

    abbrev pub after : Cons
    after = cdr_word m s caller r.caller_cell

    abbrev pub below : Value
    below = cdr_word m s r.frame r.frame_cell

    below-IsHeld : IsHeld m below
    below-IsHeld = cdr_word-IsHeld m s r.frame r.frame_cell

    abbrev cut : Memory
    cut = linked m s m.stack r.top below below-IsHeld

    cut-run : set_cdr m.stack below m ≡ ok tt cut
    cut-run = set_cdr-run m s m.stack r.top below below-IsHeld

    caller-run : car r.frame cut ≡ ok caller cut
    caller-run = car-other m s m.stack r.frame r.top r.frame_cell below below-IsHeld m.code

    after-run : cdr caller cut ≡ ok after cut
    after-run = cdr-other m s m.stack caller r.top r.caller_cell below below-IsHeld m.code r.apart

    returned-IsSound : IsSound (with_code cut after)
    returned-IsSound =
        code-IsSound cut after (IsSound-linked m s m.stack r.top below below-IsHeld) (
          IsRoot-linked m s m.stack r.top below below-IsHeld
            (rest-IsRoot caller r.caller_cell r.behind))

    value-run :
        car m.stack (with_code cut after) ≡ ok (car_word m s m.stack r.top) (with_code cut after)
    value-run = car-other m s m.stack m.stack r.top r.top below below-IsHeld after

    rest-run :
        cdr m.stack (with_code cut after)
        ≡ ok (Value.set_tag below (Value.tag (cdr_word m s m.stack r.top))) (with_code cut after)
    rest-run = cdr-linked m s m.stack r.top below below-IsHeld after

  -- What is behind the code, and the null value.
  module _ (fuel : ℕ) (code : IsCell m m.code) (nil : IsCell m m.false_cons) where
    abbrev pub next : Cons
    next = cdr_word m s m.code code

    abbrev pub is_last : Bool
    is_last = Cons.eq next (car_word m s m.false_cons nil)

    -- In a sound memory, where the code and the false value are allocated cells and what is behind the
    -- code is no number, and where there is a frame to return to if it is the null value: if it is not,
    -- the code is what is behind it. If it is, the code is what is behind the call of the nearest frame,
    -- and the value on top of the stack stays and lies on what is below the frame. Either way the memory
    -- stays sound.
    pub advance_code-IsSound :
        is_cons next ≡ true
        → (returns : is_last ≡ true → Returns fuel)
        → ((is_last ≡ false)
            × (advance_code fuel m ≡ ok tt (with_code m next))
            × IsSound (with_code m next))
          ⊎ ((e : is_last ≡ true) × (m' : Memory) × (advance_code fuel m ≡ ok tt m')
              × IsSound m'
              × (m'.code ≡ after fuel (returns e))
              × (m'.stack ≡ m.stack)
              × (car m.stack m' ≡ ok (car_word m s m.stack (returns e).top) m')
              × (cdr m.stack m'
                  ≡ ok
                      (Value.set_tag
                        (below fuel (returns e))
                        (Value.tag (cdr_word m s m.stack (returns e).top)))
                      m'))
    unfolding advance_code null
    advance_code-IsSound cons returns =
        let run = cdr-run m s m.code code in
        let nothing = car-run m s m.false_cons nil in
        elim (Bool-cases is_last) [
          | inl e ↦
              let r = returns e in
              inr (
                e,
                with_code (cut fuel r) (after fuel r),
                rw
                    (
                      run,
                      nothing,
                      e,
                      r.run,
                      cdr-run m s r.frame r.frame_cell,
                      cut-run fuel r,
                      caller-run fuel r,
                      after-run fuel r,
                    )
                    refl,
                returned-IsSound fuel r,
                refl,
                refl,
                value-run fuel r,
                rest-run fuel r,
              )
          | inr e ↦
              inl
                (e, rw (run, nothing, e) refl, code-IsSound m next s (rest-IsRoot m.code code cons))
        ]
