-- ===== src/Vm/Memory/Gc/Sound.antt =====
-- When a memory of vm/src/memory.rs is sound: every word leads to an allocated cell.
use wispy_vm.Prelude.{
  ℕ, zero, suc, ◌+◌, ◌*◌, ◌/◌, ◌%◌, ◌≤◌, ◌<◌, ◌≡◌, refl, ap, ◌⊎◌, inl, inr, Bool, true, false,
  arith, if◌then◌else◌,
}
use wispy_vm.Vm.ValueInner.{IsWord, is_cons}
use wispy_vm.Vm.Cons
use wispy_vm.Vm.Cons.{Cons, IsAddress}
use wispy_vm.Vm.Memory.{Memory, size, space_size, allocation_start}
use wispy_vm.Vm.Memory.Access.{word_at}
use wispy_vm.Vm.Memory.Gc.Relocate.{Setup, Target, Ref, intact, Inv, is_moved, remaining}

abbrev pub cells : Memory → ℕ
cells m = m.allocation_index / 2

-- A field that holds a cons: an allocated cell, or the null pointer.
pub record IsRoot (m : Memory) (c : Cons) : Type 0 where
  pub word : IsWord c
  pub cons : is_cons c ≡ true
  pub target : Target (allocation_start m) (cells m) c

-- The cons is an allocated cell, and not the null pointer.
pub record IsCell (m : Memory) (c : Cons) : Type 0 where
  pub number : ℕ
  pub allocated : number < cells m
  pub at : Cons.index c ≡ allocation_start m + 2 * number

-- The two spaces are equal and hold whole cells.
pub record IsSound (m : Memory) : Type 0 where
  pub whole : size m % 4 ≡ 0
  pub small : IsAddress (size m)
  pub paired : m.allocation_index % 2 ≡ 0
  pub fits : m.allocation_index ≤ space_size m
  pub words :
      (i : ℕ)
      → i < m.allocation_index
      → IsWord (word_at m (allocation_start m + i))
        × Ref (allocation_start m) (cells m) (word_at m (allocation_start m + i))
  pub not_moved : (k : ℕ) → k < cells m → is_moved (word_at m (allocation_start m + 2 * k)) ≡ false
  pub code : IsRoot m m.code
  pub stack : IsRoot m m.stack
  pub false_cons : IsRoot m m.false_cons
  pub register : IsRoot m m.register

-- The collection of a sound memory: from its space into the other.
pub setup-sides :
    (b : Bool) (half : ℕ)
    → (((if b then half else 0) ≡ 0) × ((if b then 0 else half) ≡ half))
      ⊎ (((if b then half else 0) ≡ half) × ((if b then 0 else half) ≡ 0))
setup-sides true half = inr (refl, refl)
setup-sides false half = inl (refl, refl)

unfoldable pub setup : (m : Memory) → IsSound m → Setup
unfolding allocation_start space_size
setup m s = record {
  half = space_size m;
  old = allocation_start m;
  fresh = if m.space then 0 else space_size m;
  cells = cells m;
  before = λ i. word_at m (allocation_start m + i);
  even = omega (arith, s.whole);
  fits = omega (arith, s.fits);
  small = omega (arith, s.small);
  sides = setup-sides m.space (space_size m);
  words = λ i hi. s.words i (omega (arith, s.paired));
  not_moved = s.not_moved;
}

-- Before the collection no cell is moved, and none is copied.
remaining_all :
    (m : Memory) (s : IsSound m) (n : ℕ) → n ≤ cells m → remaining (setup m s) m.heap n ≡ n
unfolding remaining setup
remaining_all m s zero h = refl
remaining_all m s (suc n) h = rw (s.not_moved n h, remaining_all m s n (omega arith)) (omega arith)

pub Inv-initial : (m : Memory) (s : IsSound m) → Inv (setup m s) 0 (λ _. 0) 0 m.heap
Inv-initial m s = record {
  size = unfold setup space_size size in omega (arith, s.whole);
  balance = unfold setup in omega (arith, remaining_all m s (cells m) (omega arith));
  old_cells = λ k hk. unfold setup in intact refl (ap (λ p. word_at m p) (omega arith));
  sources = λ j hj. absurd (omega arith);
  forward = λ j hj. absurd (omega arith);
  done = λ i hi. absurd (omega arith);
  waiting = λ i hi hj. absurd (omega arith);
}
