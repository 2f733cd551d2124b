-- ===== src/Vm/Memory/Gc/Copy.antt =====
-- `copy_cons` of vm/src/memory.rs relocates a cons.
use wispy_vm.Prelude.{
  ℕ, suc, ◌+◌, ◌*◌, ◌≤◌, ◌<◌, ◌≡◌, refl, sym, ap, ap₂, ◌∙◌, true, false, arith, if◌then◌else◌,
  eq→==, ne→==, length, get_or, List, length-set, set as set_at,
}
use native.Mathlib.Nat.{mod-eq_of_lt}
use wispy_vm.Vm.ValueInner.{IsWord, is_cons}
use wispy_vm.Vm.Cons
use wispy_vm.Vm.Cons.{
  Cons, index-new, is_cons-new, new-IsWord, index-set_tag, tag-set_tag, is_cons-set_tag,
  set_tag-IsWord, tag-lt, never-IsWord, index-never, eq-never,
}
use wispy_vm.Vm.Value.{Value}
use wispy_vm.Vm.Memory.{
  Memory, Outcome, ok, garbage_car, garbage_cdr, space_size, size, allocation_start, allocation_end,
  allocate_unchecked,
}
use wispy_vm.Vm.Memory.Access.{
  set_cell, length-set_cell, garbage_car-ok, garbage_cdr-ok, set_garbage_car-ok, set_garbage_cdr-ok,
  allocate_unchecked-ok,
}
use wispy_vm.Vm.Memory.Gc.{move_cons, copy_cons}
use wispy_vm.Vm.Memory.Gc.Relocate.{
  Setup, Target, nowhere, cell, Reloc, moved, Old, intact, gone, Inv, is_moved,
}
use wispy_vm.Vm.Memory.Gc.Move.{move_cell, extend}
use wispy_vm.Vm.Memory.Gc.Keep.{Extends, Inv-move, extend-Extends, extend_self, room}

-- The memory during a collection: `m` with the new cells counted and the heap as it is.
abbrev pub stage : Memory → ℕ → List Value → Memory
stage m count h = record m { allocation_index = 2 * count; heap = h }

-- The cells are copied into the space that the memory uses.
abbrev pub Into : Setup → Memory → Type 0
Into g m = g.fresh ≡ (if m.space then g.half else 0)

module _ (g : Setup) (m : Memory) (into : Into g m) where
  pub start-stage :
      (count : ℕ) (h : List Value)
      → length h ≡ 2 * g.half
      → allocation_start (stage m count h) ≡ g.fresh
  unfolding allocation_start space_size size
  start-stage count h e = ground arith

  pub space-stage :
      (count : ℕ) (h : List Value) → length h ≡ 2 * g.half → space_size (stage m count h) ≡ g.half
  unfolding space_size size
  space-stage count h e = omega arith

  pub end-stage :
      (count : ℕ) (h : List Value)
      → length h ≡ 2 * g.half
      → allocation_end (stage m count h) ≡ g.fresh + 2 * count
  unfolding allocation_end
  end-stage count h e = omega (arith, start-stage count h e)

  module _ (c : Cons) (k count : ℕ) (h : List Value) (e : Cons.index c ≡ g.old + 2 * k)
      (size : length h ≡ 2 * g.half) (hk : k < g.cells) where
    car-run : garbage_car c (stage m count h) ≡ ok (get_or h (g.old + 2 * k) 0) (stage m count h)
    car-run =
        garbage_car-ok c (stage m count h) (omega (arith, g.fits, g.sides))
        ∙ ap (λ p. ok (get_or h p 0) (stage m count h)) e

    cdr-run :
        garbage_cdr c (stage m count h) ≡ ok (get_or h (g.old + 2 * k + 1) 0) (stage m count h)
    cdr-run =
        garbage_cdr-ok c (stage m count h) (omega (arith, g.fits, g.sides))
        ∙ ap (λ p. ok (get_or h (p + 1) 0) (stage m count h)) e

    allocate-run :
        (a d : Value)
        → count < g.cells
        → allocate_unchecked a d (stage m count h)
          ≡ ok
              (Cons.new (g.fresh + 2 * count))
              (stage m (suc count) (set_cell h (g.fresh + 2 * count) a d))
    allocate-run a d hc =
        let at = end-stage count h size in
        allocate_unchecked-ok a d (stage m count h)
          (omega (arith, space-stage count h size, g.fits)) (omega (arith, at, g.fits, g.sides))
          (omega (arith, at, g.fits, g.sides, g.small))
        ∙ ap₂ (λ p n. ok (Cons.new p) (record m { allocation_index = n; heap = set_cell h p a d }))
            at (omega arith)

    -- Moving the cell, as `move_cell` describes it.
    move-run :
        count < g.cells
        → get_or h (g.old + 2 * k) 0 ≡ g.before (2 * k)
        → get_or h (g.old + 2 * k + 1) 0 ≡ g.before (2 * k + 1)
        → move_cons c (stage m count h)
          ≡ ok (Cons.new (g.fresh + 2 * count)) (stage m (suc count) (move_cell g h k count))
    unfolding move_cons move_cell
    move-run hc ea ed =
        let h₁ = set_cell h (g.fresh + 2 * count) (g.before (2 * k)) (g.before (2 * k + 1)) in
        let h₂ = set_at h₁ (g.old + 2 * k) Cons.never in
        let copy = Cons.new (g.fresh + 2 * count) in
        let long : length h₁ ≡ length h = length-set_cell h (g.fresh + 2 * count) _ _ in
        rw (
          car-run,
          cdr-run,
          ea,
          ed,
          allocate-run (g.before (2 * k)) (g.before (2 * k + 1)) hc,
          set_garbage_car-ok c (stage m (suc count) h₁) (g.old + 2 * k) e Cons.never
              (omega (arith, g.fits, g.sides)),
          set_garbage_cdr-ok c (stage m (suc count) h₂) (g.old + 2 * k) e copy
              (omega (arith, length-set h₁ (g.old + 2 * k) Cons.never, g.fits, g.sides)),
        )

-- A cons with the tag of another.
retag :
    (c v : Cons)
    → IsWord v
    → let v' = Cons.set_tag v (Cons.tag c) in
      IsWord v' × (is_cons v' ≡ true) × (Cons.index v' ≡ Cons.index v) × (Cons.tag v' ≡ Cons.tag c)
retag c v w = (
  set_tag-IsWord v (Cons.tag c),
  is_cons-set_tag v (Cons.tag c),
  index-set_tag v (Cons.tag c) w,
  tag-set_tag v (Cons.tag c) w ∙ mod-eq_of_lt (tag-lt c),
)

-- What copying the cons `c` leaves.
pub record Copied (g : Setup) (m : Memory) (count : ℕ) (src : ℕ → ℕ) (scanned : ℕ) (c : Value)
    (out : Outcome Value) : Type 0 where
  pub count' : ℕ
  pub src' : ℕ → ℕ
  pub heap' : List Value
  pub value : Value
  pub runs : out ≡ ok value (stage m count' heap')
  pub inv : Inv g count' src' scanned heap'
  pub extends : Extends count src count' src'
  pub reloc : Reloc g count' src' c value

pub Extends-refl : (count : ℕ) (src : ℕ → ℕ) → Extends count src count src
Extends-refl count src = record { more = omega arith; same = λ j hj. refl }

module _ (g : Setup) (m : Memory) (into : Into g m) {count : ℕ} {src : ℕ → ℕ} {scanned : ℕ}
    {h : List Value} (v : Inv g count src scanned h) (near : scanned ≤ 2 * count) where
  -- The null pointer stays, with its tag.
  copy-nowhere :
      (c : Cons)
      → is_cons c ≡ true
      → Cons.index c ≡ 1
      → Copied g m count src scanned c (copy_cons c (stage m count h))
  unfolding copy_cons
  copy-nowhere c ec e =
      let (w', c', i', t') = retag c Cons.never never-IsWord in
      record {
        count' = count;
        src' = src;
        heap' = h;
        value = Cons.set_tag Cons.never (Cons.tag c);
        runs = rw (eq-never c, eq→== (Cons.index c) 1 e);
        inv = v;
        extends = Extends-refl count src;
        reloc = nowhere ec e w' c' (i' ∙ index-never) t';
      }

  copy-cell :
      (c : Cons) (k : ℕ)
      → is_cons c ≡ true
      → k < g.cells
      → Cons.index c ≡ g.old + 2 * k
      → Old g count src h k
      → Copied g m count src scanned c (copy_cons c (stage m count h))
  unfolding copy_cons
  copy-cell c k ec hk e (gone j hj es mv cc' w i) =
      let to = get_or h (g.old + 2 * k + 1) 0 in
      let (w', c', i', t') = retag c to w in
      record {
        count' = count;
        src' = src;
        heap' = h;
        value = Cons.set_tag to (Cons.tag c);
        runs = rw (
          eq-never c,
          ne→== (Cons.index c) 1 (omega (arith, g.sides, g.even)),
          car-run g m into c k count h e v.size hk,
          mv,
          cdr-run g m into c k count h e v.size hk,
        );
        inv = v;
        extends = Extends-refl count src;
        reloc = moved j hj ec (e ∙ ap (λ s. g.old + 2 * s) (sym es)) w' c' (i' ∙ i) t';
      }
  copy-cell c k ec hk e (intact ea ed) =
      let still : is_moved (get_or h (g.old + 2 * k) 0) ≡ false =
        ap is_moved ea ∙ g.not_moved k hk in
      let hc = room g v k hk still in
      let copy = Cons.new (g.fresh + 2 * count) in
      let (w', c', i', t') = retag c copy (new-IsWord (g.fresh + 2 * count)) in
      record {
        count' = suc count;
        src' = extend src count k;
        heap' = move_cell g h k count;
        value = Cons.set_tag copy (Cons.tag c);
        runs = rw (
          eq-never c,
          ne→== (Cons.index c) 1 (omega (arith, g.sides, g.even)),
          car-run g m into c k count h e v.size hk,
          still,
          move-run g m into c k count h e v.size hk hc ea ed,
        );
        inv = Inv-move g v k hk still near;
        extends = extend-Extends g v k hk still;
        reloc =
            moved count (omega arith) ec
              (e ∙ ap (λ s. g.old + 2 * s) (sym (extend_self src count k))) w' c'
              (i' ∙ index-new (g.fresh + 2 * count) (omega (arith, g.small, g.sides, g.fits, hc)))
              t';
      }

  pub copy_cons-Copied :
      (c : Cons)
      → is_cons c ≡ true
      → Target g.old g.cells c
      → Copied g m count src scanned c (copy_cons c (stage m count h))
  copy_cons-Copied c ec (nowhere e) = copy-nowhere c ec e
  copy_cons-Copied c ec (cell k hk e) = copy-cell c k ec hk e (v.old_cells k hk)
