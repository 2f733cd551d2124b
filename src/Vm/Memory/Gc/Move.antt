-- ===== src/Vm/Memory/Gc/Move.antt =====
-- Moving one cell keeps the collector's invariant.
use wispy_vm.Prelude.{
  ℕ, zero, suc, ◌+◌, ◌*◌, ◌≤◌, ◌<◌, ◌≡◌, ◌≢◌, refl, ◌∙◌, true, false, arith, ◌==◌, if◌then◌else◌,
  length, get_or, List,
}
use native.Mathlib.Decide.{ℕ_discrete}
use wispy_vm.Vm.Cons
use wispy_vm.Vm.Value
use wispy_vm.Vm.Value.{Value}
use wispy_vm.Vm.Memory.Access.{set_cell, length-set_cell, get_or-set_cell}
use wispy_vm.Vm.Memory.Gc.Relocate.{Setup, is_moved, remaining}

-- The heap in which the old cell `k` was copied to the new cell `count`.
unfoldable pub move_cell : Setup → List Value → ℕ → ℕ → List Value
move_cell g h k count =
    set_cell (set_cell h (g.fresh + 2 * count) (g.before (2 * k)) (g.before (2 * k + 1)))
      (g.old + 2 * k) Cons.never (Cons.new (g.fresh + 2 * count))

pub is_moved-never : is_moved Cons.never ≡ true
unfolding Value.eq Cons.never
is_moved-never = refl

abbrev pub extend : (ℕ → ℕ) → ℕ → ℕ → ℕ → ℕ
extend src count k j = if j == count then k else src j

module _ (g : Setup) (h : List Value) (k count : ℕ) (size : length h ≡ 2 * g.half)
    (hk : k < g.cells) (hc : count < g.cells) where
  move-at :
      (p : ℕ)
      → get_or (move_cell g h k count) p 0 ≡ (
          if g.old + 2 * k + 1 == p
          then Cons.new (g.fresh + 2 * count)
          else if g.old + 2 * k == p
          then Cons.never
          else if g.fresh + 2 * count + 1 == p
          then g.before (2 * k + 1)
          else if g.fresh + 2 * count == p
          then g.before (2 * k)
          else get_or h p 0)
  unfolding move_cell
  move-at p =
      rw
        (get_or-set_cell
          (set_cell h (g.fresh + 2 * count) (g.before (2 * k)) (g.before (2 * k + 1)))
          (g.old + 2 * k) p _ _
          (omega (
            arith,
            g.fits,
            g.sides,
            length-set_cell h (g.fresh + 2 * count) (g.before (2 * k)) (g.before (2 * k + 1)),
          )))
        (rw (get_or-set_cell h (g.fresh + 2 * count) p _ _ (omega (arith, g.fits, g.sides))))

  pub length-move : length (move_cell g h k count) ≡ 2 * g.half
  unfolding move_cell
  length-move =
      length-set_cell _ (g.old + 2 * k) _ _ ∙ length-set_cell h (g.fresh + 2 * count) _ _ ∙ size

  pub move_car : get_or (move_cell g h k count) (g.old + 2 * k) 0 ≡ Cons.never
  move_car = ground (arith, move-at (g.old + 2 * k))

  pub move_cdr :
      get_or (move_cell g h k count) (g.old + 2 * k + 1) 0 ≡ Cons.new (g.fresh + 2 * count)
  move_cdr = ground (arith, move-at (g.old + 2 * k + 1))

  -- The other old words stay.
  pub move_old :
      (i : ℕ)
      → i < g.half
      → i ≢ 2 * k
      → i ≢ 2 * k + 1
      → get_or (move_cell g h k count) (g.old + i) 0 ≡ get_or h (g.old + i) 0
  move_old i hi na nd = ground (arith, move-at (g.old + i), g.sides, g.fits)

  pub copy_car : get_or (move_cell g h k count) (g.fresh + 2 * count) 0 ≡ g.before (2 * k)
  copy_car = ground (arith, move-at (g.fresh + 2 * count), g.sides, g.fits)

  pub copy_cdr : get_or (move_cell g h k count) (g.fresh + 2 * count + 1) 0 ≡ g.before (2 * k + 1)
  copy_cdr = ground (arith, move-at (g.fresh + 2 * count + 1), g.sides, g.fits)

  -- The new words in front stay.
  pub move_fresh :
      (i : ℕ)
      → i < 2 * count
      → get_or (move_cell g h k count) (g.fresh + i) 0 ≡ get_or h (g.fresh + i) 0
  move_fresh i hi = ground (arith, move-at (g.fresh + i), g.sides, g.fits)

  remaining-other : (n : ℕ) → n ≤ k → remaining g (move_cell g h k count) n ≡ remaining g h n
  unfolding remaining
  remaining-other zero hn = refl
  remaining-other (suc n) hn = rw (
    move_old (2 * n) (omega (arith, g.fits)) (omega arith) (omega arith),
    remaining-other n (omega arith),
  )

  -- One cell less remains.
  pub remaining-move :
      (n : ℕ)
      → k < n
      → n ≤ g.cells
      → is_moved (get_or h (g.old + 2 * k) 0) ≡ false
      → suc (remaining g (move_cell g h k count) n) ≡ remaining g h n
  unfolding remaining
  remaining-move zero hn hc e = absurd (omega arith)
  remaining-move (suc n) hn hc e = elim (ℕ_discrete k n) [
    | yes p ↦
        rw (← p) (rw (move_car, is_moved-never, e, remaining-other k (omega arith)) (omega arith))
    | no p ↦
        rw (move_old (2 * n) (omega (arith, g.fits)) (omega arith) (omega arith))
          (rw (← remaining-move n (omega arith) (omega arith) e) (omega arith))
  ]

-- A cell that is not moved is one of those that remain.
pub remaining_pos :
    (g : Setup) (h : List Value) (k n : ℕ)
    → k < n
    → is_moved (get_or h (g.old + 2 * k) 0) ≡ false
    → 0 < remaining g h n
unfolding remaining
remaining_pos g h k zero hk e = absurd (omega arith)
remaining_pos g h k (suc n) hk e = elim (ℕ_discrete k n) [
  | yes p ↦ rw (← p) (rw e (omega arith))
  | no p ↦ omega (arith, remaining_pos g h k n (omega arith) e)
]
