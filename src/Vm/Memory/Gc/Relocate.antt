-- ===== src/Vm/Memory/Gc/Relocate.antt =====
-- What the collector of vm/src/memory.rs keeps: the old cells, the new ones, and the way between.
use wispy_vm.Prelude.{
  ℕ, zero, suc, ◌+◌, ◌*◌, ◌/◌, ◌%◌, ◌≤◌, ◌<◌, ◌≡◌, ◌⊎◌, Bool, true, false, if◌then◌else◌, length,
  get_or, List,
}
use wispy_vm.Vm.ValueInner.{IsWord, is_cons}
use wispy_vm.Vm.Cons
use wispy_vm.Vm.Cons.{IsAddress}
use wispy_vm.Vm.Value
use wispy_vm.Vm.Value.{Value}

-- The word of a cell that was moved: the null pointer in its `car`.
abbrev pub is_moved : Value → Bool
is_moved v = Value.eq v Cons.never

-- The word leads to one of the `n` cells from `start` on, or nowhere.
pub data Target (start n : ℕ) (v : Value) : Type 0 where
  nowhere : Cons.index v ≡ 1 → Target start n v
  cell : (k : ℕ) → k < n → Cons.index v ≡ start + 2 * k → Target start n v

-- A number, or a cons with a target.
pub data Ref (start n : ℕ) (v : Value) : Type 0 where
  number : is_cons v ≡ false → Ref start n v
  pointer : is_cons v ≡ true → Target start n v → Ref start n v

-- The memory before a collection: `cells` cells from `old` on, in one of two spaces of `half` words,
-- the other of which starts at `fresh`.
pub record Setup : Type 0 where
  pub half : ℕ
  pub old : ℕ
  pub fresh : ℕ
  pub cells : ℕ
  pub before : ℕ → Value
  pub even : half % 2 ≡ 0
  pub fits : 2 * cells ≤ half
  pub small : IsAddress (2 * half)
  pub sides : ((old ≡ 0) × (fresh ≡ half)) ⊎ ((old ≡ half) × (fresh ≡ 0))
  pub words : (i : ℕ) → i < 2 * cells → IsWord (before i) × Ref old cells (before i)
  pub not_moved : (k : ℕ) → k < cells → is_moved (before (2 * k)) ≡ false

module _ (g : Setup) where
  -- `v'` is what `v` becomes: `src j` is the old cell of which the new cell `j` is the copy.
  pub data Reloc (count : ℕ) (src : ℕ → ℕ) (v : Value) : Value → Type 0 where
    number : is_cons v ≡ false → Reloc count src v v
    nowhere :
        {v' : Value}
        → is_cons v ≡ true
        → Cons.index v ≡ 1
        → IsWord v'
        → is_cons v' ≡ true
        → Cons.index v' ≡ 1
        → Cons.tag v' ≡ Cons.tag v
        → Reloc count src v v'
    moved :
        {v' : Value} (j : ℕ)
        → j < count
        → is_cons v ≡ true
        → Cons.index v ≡ g.old + 2 * src j
        → IsWord v'
        → is_cons v' ≡ true
        → Cons.index v' ≡ g.fresh + 2 * j
        → Cons.tag v' ≡ Cons.tag v
        → Reloc count src v v'

  -- An old cell is as it was, or moved, and then leads to its copy.
  pub data Old (count : ℕ) (src : ℕ → ℕ) (h : List Value) (k : ℕ) : Type 0 where
    intact :
        get_or h (g.old + 2 * k) 0 ≡ g.before (2 * k)
        → get_or h (g.old + 2 * k + 1) 0 ≡ g.before (2 * k + 1)
        → Old count src h k
    gone :
        (j : ℕ)
        → j < count
        → src j ≡ k
        → is_moved (get_or h (g.old + 2 * k) 0) ≡ true
        → is_cons (get_or h (g.old + 2 * k + 1) 0) ≡ true
        → IsWord (get_or h (g.old + 2 * k + 1) 0)
        → Cons.index (get_or h (g.old + 2 * k + 1) 0) ≡ g.fresh + 2 * j
        → Old count src h k

  -- How many of the first `n` old cells are not moved.
  unfoldable pub remaining : List Value → ℕ → ℕ
  remaining h zero = 0
  remaining h (suc n) = (if is_moved (get_or h (g.old + 2 * n) 0) then 0 else 1) + remaining h n

  -- The word `i` of the new space: copied, and relocated too if it was scanned.
  abbrev pub origin : (ℕ → ℕ) → ℕ → Value
  origin src i = g.before (2 * src (i / 2) + i % 2)

  pub record Inv (count : ℕ) (src : ℕ → ℕ) (scanned : ℕ) (h : List Value) : Type 0 where
    pub size : length h ≡ 2 * g.half
    pub balance : count + remaining h g.cells ≡ g.cells
    pub old_cells : (k : ℕ) → k < g.cells → Old count src h k
    pub sources : (j : ℕ) → j < count → src j < g.cells
    pub forward :
        (j : ℕ)
        → j < count
        → (is_moved (get_or h (g.old + 2 * src j) 0) ≡ true)
          × (Cons.index (get_or h (g.old + 2 * src j + 1) 0) ≡ g.fresh + 2 * j)
    pub done :
        (i : ℕ)
        → i < scanned
        → i < 2 * count
        → Reloc count src (origin src i) (get_or h (g.fresh + i) 0)
    pub waiting : (i : ℕ) → scanned ≤ i → i < 2 * count → get_or h (g.fresh + i) 0 ≡ origin src i
