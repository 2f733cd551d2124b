-- ===== src/Vm/Memory/Stack/New.antt =====
-- `Memory::new` of vm/src/memory.rs makes a sound memory.
use wispy_vm.Prelude.{◌%◌, ◌≤◌, ◌<◌, ◌≡◌, refl, ◌∙◌, false, arith, length, List}
use wispy_vm.Vm.ValueInner.{is_cons}
use wispy_vm.Vm.Cons
use wispy_vm.Vm.Cons.{
  Cons, Tag, IsAddress, index-new, index-set_tag, is_cons-new, is_cons-set_tag, set_tag-IsWord,
  new-IsWord, never-IsWord, index-never,
}
use wispy_vm.Vm.Value
use wispy_vm.Vm.Value.{Value, zero_value}
use wispy_vm.Vm.Memory.{Memory, ok, size, space_size, allocation_start, allocation_end}
use wispy_vm.Vm.Memory.Gc.Relocate.{nowhere, number, is_moved}
use wispy_vm.Vm.Memory.Gc.Sound.{IsRoot, IsSound}
use wispy_vm.Vm.Memory.Gc.Preserve.{is_cons-never, is_moved-cons}
use wispy_vm.Vm.Memory.Gc.Grow.{
  IsHeld, grown, allocate-run, IsSound-grown, new_cell-IsRoot, space-grown,
}
use wispy_vm.Vm.Memory.Stack.{blank, initialize_false, new}
use wispy_vm.Vm.Memory.Stack.Sound.{IsRoot-IsHeld}

-- Before anything is allocated, a memory of two equal spaces is sound.
blank-IsSound : (h : List Value) → length h % 4 ≡ 0 → IsAddress (length h) → IsSound (blank h)
unfolding size
blank-IsSound h whole small = record {
  whole = whole;
  small = small;
  paired = refl;
  fits = omega arith;
  words = λ i hi. absurd (omega (arith, hi));
  not_moved = λ k hk. absurd (omega (arith, hk));
  code = never-root;
  stack = never-root;
  false_cons = never-root;
  register = never-root;
}
  where
    never-root : IsRoot (blank h) Cons.never
    never-root = record { word = never-IsWord; cons = is_cons-never; target = nowhere index-never }

zero_value-IsHeld : (m : Memory) → IsHeld m zero_value
unfolding zero_value is_cons
zero_value-IsHeld m = record { word = omega arith; target = number refl }

is_moved-zero_value : is_moved zero_value ≡ false
unfolding zero_value Value.eq Cons.never
is_moved-zero_value = refl

false-IsSound :
    (m : Memory) (c : Cons) → IsSound m → IsRoot m c → IsSound (record m { false_cons = c })
unfolding size space_size allocation_start
false-IsSound m c s r = record {
  whole = s.whole;
  small = s.small;
  paired = s.paired;
  fits = s.fits;
  words = s.words;
  not_moved = s.not_moved;
  code = record { word = s.code.word; cons = s.code.cons; target = s.code.target };
  stack = record { word = s.stack.word; cons = s.stack.cons; target = s.stack.target };
  false_cons = record { word = r.word; cons = r.cons; target = r.target };
  register = record { word = s.register.word; cons = s.register.cons; target = s.register.target };
}

end-blank : (h : List Value) → allocation_end (blank h) ≡ 0
unfolding allocation_end allocation_start
end-blank h = refl

space-lower : (h : List Value) → 8 ≤ length h → 4 ≤ space_size (blank h)
unfolding space_size size
space-lower h room = omega arith

module _ (h : List Value) (whole : length h % 4 ≡ 0) (small : IsAddress (length h))
    (room : 8 ≤ length h) where
  room₀ : (blank h).allocation_index < space_size (blank h)
  unfolding space_size size
  room₀ = omega arith

  -- The first cell is null and true.
  abbrev m₁ : Memory
  m₁ = grown (blank h) zero_value zero_value

  abbrev c₁ : Cons
  c₁ = Cons.new (allocation_end (blank h))

  held₁ : IsHeld (blank h) zero_value
  held₁ = zero_value-IsHeld (blank h)

  sound₁ : IsSound m₁
  sound₁ =
      IsSound-grown (blank h) (blank-IsSound h whole small) room₀ zero_value zero_value held₁
        is_moved-zero_value held₁

  root₁ : IsRoot m₁ c₁
  root₁ =
      new_cell-IsRoot (blank h) (blank-IsSound h whole small) room₀ zero_value zero_value held₁
        is_moved-zero_value held₁

  room₁ : m₁.allocation_index < space_size m₁
  room₁ =
      omega (
        arith,
        space-grown (blank h) (blank-IsSound h whole small) room₀ zero_value zero_value,
        four,
      )
    where
      four : 4 ≤ space_size (blank h)
      four = space-lower h room

  not_moved₁ : is_moved c₁ ≡ false
  not_moved₁ = rw (is_moved-cons c₁ (is_cons-new (allocation_end (blank h))), index₁) refl
    where
      index₁ : Cons.index c₁ ≡ 0
      index₁ = index-new _ (omega (arith, end-blank h)) ∙ end-blank h

  -- A memory is made without an error, and is sound, over a heap of at least eight words and less
  -- than 2 ^ 47, a multiple of four.
  pub new-IsSound : (m : Memory) × (new h ≡ ok tt m) × IsSound m
  unfolding new initialize_false
  new-IsSound =
      let held = IsRoot-IsHeld root₁ in
      let run₀ =
        allocate-run (blank h) (blank-IsSound h whole small) room₀ zero_value zero_value held₁
          is_moved-zero_value held₁ in
      let run₁ = allocate-run m₁ sound₁ room₁ c₁ c₁ held not_moved₁ held in
      (
        record (grown m₁ c₁ c₁) { false_cons = Cons.new (allocation_end m₁) },
        rw (run₀, run₁),
        false-IsSound (grown m₁ c₁ c₁) (Cons.new (allocation_end m₁))
            (IsSound-grown m₁ sound₁ room₁ c₁ c₁ held not_moved₁ held)
            (new_cell-IsRoot m₁ sound₁ room₁ c₁ c₁ held not_moved₁ held),
      )
