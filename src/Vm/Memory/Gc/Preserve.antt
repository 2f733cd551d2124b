-- ===== src/Vm/Memory/Gc/Preserve.antt =====
-- A collection of vm/src/memory.rs leaves a sound memory.
use wispy_vm.Prelude.{
  ℕ, ◌+◌, ◌*◌, ◌/◌, ◌%◌, ◌<◌, ◌≡◌, refl, sym, ap, ◌∙◌, subst, Bool, true, false, not, Option, none,
  some, arith, ◌==◌, if◌then◌else◌,
}
use wispy_vm.Vm.ValueInner.{IsWord, is_cons}
use wispy_vm.Vm.Cons
use wispy_vm.Vm.Cons.{Cons, index-never, is_cons-new}
use wispy_vm.Vm.Value
use wispy_vm.Vm.Value.{Value}
use wispy_vm.Vm.Memory.{Memory, Outcome, ok, space_size, allocation_start}
use wispy_vm.Vm.Memory.Access.{word_at}
use wispy_vm.Vm.Memory.Gc.{collect_garbages}
use wispy_vm.Vm.Memory.Gc.Relocate.{Setup, Target, Ref, Reloc, number, nowhere, moved, is_moved}
use wispy_vm.Vm.Memory.Gc.Sound.{IsRoot, IsSound, cells, setup}
use wispy_vm.Vm.Memory.Gc.Roots.{ExtraRoot, RelocExtra}
use wispy_vm.Vm.Memory.Gc.Collect.{Collected, collect_garbages-Collected}

module _ (g : Setup) {count : ℕ} {src : ℕ → ℕ} where
  Reloc-Ref : {v v' : Value} → Reloc g count src v v' → Ref g.fresh count v'
  Reloc-Ref (number e) = Ref.number e
  Reloc-Ref (nowhere c e w c' e' t) = Ref.pointer c' (Target.nowhere e')
  Reloc-Ref (moved j hj c e w c' e' t) = Ref.pointer c' (Target.cell j hj e')

  Reloc-IsWord : {v v' : Value} → IsWord v → Reloc g count src v v' → IsWord v'
  Reloc-IsWord h (number e) = h
  Reloc-IsWord h (nowhere c e w c' e' t) = w
  Reloc-IsWord h (moved j hj c e w c' e' t) = w

  Reloc-is_cons : {v v' : Value} → is_cons v ≡ true → Reloc g count src v v' → is_cons v' ≡ true
  Reloc-is_cons h (number e) = h
  Reloc-is_cons h (nowhere c e w c' e' t) = c'
  Reloc-is_cons h (moved j hj c e w c' e' t) = c'

  Reloc-Target :
      {v v' : Value} → is_cons v ≡ true → Reloc g count src v v' → Target g.fresh count v'
  Reloc-Target h (number e) = absurd cc
  Reloc-Target h (nowhere c e w c' e' t) = Target.nowhere e'
  Reloc-Target h (moved j hj c e w c' e' t) = Target.cell j hj e'

pub is_cons-never : is_cons Cons.never ≡ true
unfolding Cons.never
is_cons-never = is_cons-new 1

-- The null pointer is the cons with the address one.
pub is_moved-cons : (v : Value) → is_cons v ≡ true → is_moved v ≡ (Cons.index v == 1)
unfolding Value.eq Cons.eq
is_moved-cons v c = rw (c, is_cons-never, index-never)

Reloc-is_moved :
    (g : Setup) {count : ℕ} {src : ℕ → ℕ} {v v' : Value}
    → Reloc g count src v v'
    → is_moved v ≡ false
    → is_moved v' ≡ false
Reloc-is_moved g (number e) h = h
Reloc-is_moved g {v} (nowhere c e w c' e' t) h =
    let at : is_moved v ≡ true = rw (is_moved-cons v c, e) refl in absurd cc
Reloc-is_moved g {v'} (moved j hj c e w c' e' t) h =
    rw (is_moved-cons v' c', e') (ground (arith, g.sides, g.even))

fresh-flip : (b : Bool) (half : ℕ) → (if not b then half else 0) ≡ (if b then 0 else half)
fresh-flip true half = refl
fresh-flip false half = refl

double : (src : ℕ → ℕ) (k : ℕ) → 2 * src ((2 * k) / 2) + (2 * k) % 2 ≡ 2 * src k
double src k =
    let half : (2 * k) / 2 ≡ k = omega arith in
    let even : (2 * k) % 2 ≡ 0 = omega arith in rw (half, even) (omega arith)

pub some_root :
    (g : Setup) {count : ℕ} {src : ℕ → ℕ} (c : Cons) (extra : Option Cons)
    → RelocExtra g count src (some c) extra
    → (c' : Cons) × (extra ≡ some c') × Reloc g count src c c'
some_root g c none x = absurd x
some_root g c (some c') x = (c', refl, x)

module _ (m : Memory) (s : IsSound m) {extra : Option Cons} {out : Outcome (Option Cons)}
    (p : Collected m s extra out) where
  space_size-after : space_size p.after ≡ space_size m
  unfolding space_size
  space_size-after = ap (λ n. n / 2) p.same_size

  pub start-after : allocation_start p.after ≡ (setup m s).fresh
  unfolding allocation_start setup
  start-after = rw (p.flipped, space_size-after) (fresh-flip m.space (space_size m))

  pub cells-after : cells p.after ≡ p.count
  cells-after = omega (arith, p.allocated)

  pub Reloc-IsRoot :
      {c c' : Cons} → IsRoot m c → Reloc (setup m s) p.count p.src c c' → IsRoot p.after c'
  Reloc-IsRoot r x = record {
    word = Reloc-IsWord (setup m s) r.word x;
    cons = Reloc-is_cons (setup m s) r.cons x;
    target = rw (start-after, cells-after) (Reloc-Target (setup m s) r.cons x);
  }

  words-before :
      (i : ℕ)
      → i < 2 * p.count
      → IsWord (word_at m (allocation_start m + (2 * p.src (i / 2) + i % 2)))
  words-before i hi = (s.words _ (omega (arith, p.sources (i / 2) (omega arith), s.paired))).0

  words-after :
      (i : ℕ)
      → i < p.after.allocation_index
      → IsWord (word_at p.after (allocation_start p.after + i))
        × Ref
            (allocation_start p.after)
            (cells p.after)
            (word_at p.after (allocation_start p.after + i))
  words-after i hi =
      let below : i < 2 * p.count = omega (arith, p.allocated) in
      let x = p.words i below in
      (
        Reloc-IsWord (setup m s) (words-before i below) x,
        subst (λ a. Ref a (cells p.after) (word_at p.after (allocation_start p.after + i)))
            (sym start-after) (rw cells-after (Reloc-Ref (setup m s) x)),
      )

  not_moved-after :
      (k : ℕ)
      → k < cells p.after
      → is_moved (word_at p.after (allocation_start p.after + 2 * k)) ≡ false
  not_moved-after k hk =
      let below : k < p.count = omega (arith, cells-after) in
      Reloc-is_moved (setup m s) (p.words (2 * k) (omega arith)) (
        ap (λ i. is_moved (word_at m (allocation_start m + i))) (double (p.src) k)
        ∙ s.not_moved (p.src k) (p.sources k below))

  pub Collected-IsSound : IsSound p.after
  Collected-IsSound = record {
    whole = rw p.same_size s.whole;
    small = rw p.same_size s.small;
    paired = omega (arith, p.allocated);
    fits = omega (arith, p.allocated, p.bounded, s.fits, s.paired, space_size-after);
    words = words-after;
    not_moved = not_moved-after;
    code = Reloc-IsRoot s.code p.code;
    stack = Reloc-IsRoot s.stack p.stack;
    false_cons = Reloc-IsRoot s.false_cons p.false_cons;
    register = Reloc-IsRoot s.register p.register;
  }

  ExtraRoot-after :
      (c c' : Option Cons)
      → ExtraRoot m c
      → RelocExtra (setup m s) p.count p.src c c'
      → ExtraRoot p.after c'
  ExtraRoot-after none none r x = tt
  ExtraRoot-after none (some c') r x = absurd x
  ExtraRoot-after (some c) none r x = absurd x
  ExtraRoot-after (some c) (some c') r x = Reloc-IsRoot r x

-- A collection of a sound memory, with an extra root or without one, ends without an error and
-- leaves a sound memory, and the relocated extra root, where there is one, is a root of it.
pub collect_garbages-IsSound :
    (m : Memory)
    → IsSound m
    → (extra : Option Cons) → ExtraRoot m extra
    → (extra' : Option Cons) × (m' : Memory) × (collect_garbages extra m ≡ ok extra' m')
      × IsSound m'
      × ExtraRoot m' extra'
collect_garbages-IsSound m s extra r =
    let p = collect_garbages-Collected m s extra r in
    (
      p.new_extra,
      p.after,
      p.runs,
      Collected-IsSound m s p,
      ExtraRoot-after m s p extra p.new_extra r p.extra_root,
    )

-- With an extra root, its new address is returned.
pub collect_garbages-IsRoot :
    (m : Memory)
    → IsSound m
    → (c : Cons) → IsRoot m c
    → (c' : Cons) × (m' : Memory) × (collect_garbages (some c) m ≡ ok (some c') m')
      × IsSound m'
      × IsRoot m' c'
collect_garbages-IsRoot m s c r =
    let p = collect_garbages-Collected m s (some c) r in
    let (c', e, x) = some_root (setup m s) c p.new_extra p.extra_root in
    (
      c',
      p.after,
      p.runs ∙ ap (λ o. ok o p.after) e,
      Collected-IsSound m s p,
      Reloc-IsRoot m s p r x,
    )
