-- ===== src/Vm/Memory/Gc/Keep.antt =====
-- The collector's invariant after a cell is moved.
use wispy_vm.Prelude.{
  ℕ, suc, ◌+◌, ◌*◌, ◌/◌, ◌%◌, ◌≤◌, ◌<◌, ◌≡◌, ◌≢◌, refl, sym, ap, ap₂, ◌∙◌, subst, true, false,
  arith, eq→==, ne→==, get_or, List,
}
use native.Mathlib.Decide.{ℕ_discrete, dec_lt}
use wispy_vm.Vm.Cons
use wispy_vm.Vm.Cons.{index-new, is_cons-new, new-IsWord}
use wispy_vm.Vm.Value.{Value}
use wispy_vm.Vm.Memory.Gc.Relocate.{
  Setup, Reloc, number, nowhere, moved, Old, intact, gone, Inv, is_moved, origin,
}
use wispy_vm.Vm.Memory.Gc.Move.{
  move_cell, extend, is_moved-never, length-move, move_car, move_cdr, move_old, copy_car, copy_cdr,
  move_fresh, remaining-move, remaining_pos,
}

-- More cells were copied, and those before keep their sources.
pub record Extends (count : ℕ) (src : ℕ → ℕ) (count' : ℕ) (src' : ℕ → ℕ) : Type 0 where
  pub more : count ≤ count'
  pub same : (j : ℕ) → j < count → src' j ≡ src j

pub Reloc-Extends :
    (g : Setup) {count count' : ℕ} {src src' : ℕ → ℕ} {v v' : Value}
    → Extends count src count' src'
    → Reloc g count src v v'
    → Reloc g count' src' v v'
Reloc-Extends g x (number e) = number e
Reloc-Extends g x (nowhere c e w c' e' t) = nowhere c e w c' e' t
Reloc-Extends g {src} {src'} x (moved j hj c e w c' e' t) =
    moved j (omega (arith, x.more)) c (rw (x.same j hj) e) w c' e' t

pub extend_self : (src : ℕ → ℕ) (count k : ℕ) → extend src count k count ≡ k
extend_self src count k = rw (eq→== count count refl)

module _ (g : Setup) {count : ℕ} {src : ℕ → ℕ} {scanned : ℕ} {h : List Value}
    (v : Inv g count src scanned h) (k : ℕ) (hk : k < g.cells)
    (still : is_moved (get_or h (g.old + 2 * k) 0) ≡ false) where
  -- There is room: a cell that is not moved is not among those copied.
  pub room : count < g.cells
  room = omega (arith, v.balance, remaining_pos g h k g.cells hk still)

  address : Cons.index (Cons.new (g.fresh + 2 * count)) ≡ g.fresh + 2 * count
  address = index-new (g.fresh + 2 * count) (omega (arith, g.small, g.sides, g.fits, room))

  pub extend-Extends : Extends count src (suc count) (extend src count k)
  extend-Extends = record { more = omega arith; same = λ j hj. rw (ne→== j count (omega arith)) }

  other_car :
      (k' : ℕ)
      → k' < g.cells
      → k' ≢ k
      → get_or (move_cell g h k count) (g.old + 2 * k') 0 ≡ get_or h (g.old + 2 * k') 0
  other_car k' hk' ne =
      move_old g h k count v.size hk room (2 * k') (omega (arith, g.fits)) (omega arith)
        (omega arith)

  other_cdr :
      (k' : ℕ)
      → k' < g.cells
      → k' ≢ k
      → get_or (move_cell g h k count) (g.old + 2 * k' + 1) 0 ≡ get_or h (g.old + 2 * k' + 1) 0
  other_cdr k' hk' ne =
      ap (λ p. get_or (move_cell g h k count) p 0) (omega arith)
      ∙ move_old g h k count v.size hk room (2 * k' + 1) (omega (arith, g.fits)) (omega arith)
          (omega arith)
      ∙ ap (λ p. get_or h p 0) (omega arith)

  Old-move :
      (k' : ℕ) → k' < g.cells → Old g (suc count) (extend src count k) (move_cell g h k count) k'
  Old-move k' hk' = elim (ℕ_discrete k' k) [
    | yes p ↦ rw p (
        gone count (omega arith) (extend_self src count k)
          (rw (move_car g h k count v.size hk room) is_moved-never)
          (rw (move_cdr g h k count v.size hk room) (is_cons-new _))
          (rw (move_cdr g h k count v.size hk room) (new-IsWord _))
          (rw (move_cdr g h k count v.size hk room) address))
    | no ne ↦ go ne (v.old_cells k' hk')
  ]
    where
      go :
          k' ≢ k
          → Old g count src h k'
          → Old g (suc count) (extend src count k) (move_cell g h k count) k'
      go ne (intact a d) = intact (other_car k' hk' ne ∙ a) (other_cdr k' hk' ne ∙ d)
      go ne (gone j hj e mv c w i) =
          gone j (omega arith) (extend-Extends.same j hj ∙ e) (rw (other_car k' hk' ne) mv)
            (rw (other_cdr k' hk' ne) c) (rw (other_cdr k' hk' ne) w) (rw (other_cdr k' hk' ne) i)

  source_ne : (j : ℕ) → j < count → src j ≢ k
  source_ne j hj e =
      cc (still, subst (λ k'. is_moved (get_or h (g.old + 2 * k') 0) ≡ true) e (v.forward j hj).0)

  origin-extend : (i : ℕ) → i < 2 * count → origin g (extend src count k) i ≡ origin g src i
  origin-extend i hi =
      ap (λ s. g.before (2 * s + i % 2)) (extend-Extends.same (i / 2) (omega arith))

  -- The words of the new cell.
  origin-new :
      (i r : ℕ) → i / 2 ≡ count → i % 2 ≡ r → origin g (extend src count k) i ≡ g.before (2 * k + r)
  origin-new i r e er =
      ap₂ (λ s t. g.before (2 * s + t)) (ap (extend src count k) e ∙ extend_self src count k) er

  waiting-move :
      (i : ℕ)
      → scanned ≤ i
      → i < 2 * suc count
      → get_or (move_cell g h k count) (g.fresh + i) 0 ≡ origin g (extend src count k) i
  waiting-move i hs hi = elim (dec_lt i (2 * count)) [
    | yes p ↦ move_fresh g h k count v.size hk room i p ∙ v.waiting i hs p ∙ sym (origin-extend i p)
    | no p ↦ elim (ℕ_discrete i (2 * count)) [
      | yes e ↦
          ap (λ q. get_or (move_cell g h k count) (g.fresh + q) 0) e
          ∙ copy_car g h k count v.size hk room
          ∙ ap g.before (omega arith)
          ∙ sym (origin-new i 0 (omega arith) (omega arith))
      | no e ↦
          ap (λ q. get_or (move_cell g h k count) q 0) (omega arith)
          ∙ copy_cdr g h k count v.size hk room
          ∙ sym (origin-new i 1 (omega arith) (omega arith))
    ]
  ]

  done-move :
      scanned ≤ 2 * count
      → (i : ℕ) → i < scanned
      → Reloc g
          (suc count)
          (extend src count k)
          (origin g (extend src count k) i)
          (get_or (move_cell g h k count) (g.fresh + i) 0)
  done-move hs i hi =
      let below : i < 2 * count = omega arith in
      rw (origin-extend i below, move_fresh g h k count v.size hk room i below)
        (Reloc-Extends g extend-Extends (v.done i hi below))

  sources-move : (j : ℕ) → j < suc count → extend src count k j < g.cells
  sources-move j hj = elim (ℕ_discrete j count) [
    | yes e ↦ rw e (rw (extend_self src count k) hk)
    | no ne ↦ rw (ne→== j count ne) (v.sources j (omega arith))
  ]

  forward-move :
      (j : ℕ)
      → j < suc count
      → (is_moved (get_or (move_cell g h k count) (g.old + 2 * extend src count k j) 0) ≡ true)
        × (Cons.index (get_or (move_cell g h k count) (g.old + 2 * extend src count k j + 1) 0)
            ≡ g.fresh + 2 * j)
  forward-move j hj = elim (ℕ_discrete j count) [
    | yes e ↦ rw e (
        rw (extend_self src count k) (
          rw (move_car g h k count v.size hk room) is_moved-never,
          rw (move_cdr g h k count v.size hk room) address,
        ))
    | no ne ↦
        let below : j < count = omega arith in
        rw (ne→== j count ne) (
          rw (other_car (src j) (v.sources j below) (source_ne j below)) (v.forward j below).0,
          rw (other_cdr (src j) (v.sources j below) (source_ne j below)) (v.forward j below).1,
        )
  ]

  -- The invariant holds again, for one cell more.
  pub Inv-move :
      scanned ≤ 2 * count → Inv g (suc count) (extend src count k) scanned (move_cell g h k count)
  Inv-move hs = record {
    size = length-move g h k count v.size hk room;
    balance = omega (
      arith,
      v.balance,
      remaining-move g h k count v.size hk room g.cells hk (omega arith) still,
    );
    old_cells = Old-move;
    sources = sources-move;
    forward = forward-move;
    done = λ i hi _. done-move hs i hi;
    waiting = waiting-move;
  }
