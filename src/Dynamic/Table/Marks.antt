-- ===== src/Dynamic/Table/Marks.antt =====
-- What the marks of a collection of the table hold.
use wispy_vm.Dynamic.Table.{mark, mark_cell, mark_cells}
use wispy_vm.Prelude.{
  ℕ, zero, suc, ◌+◌, ◌*◌, ◌/◌, ◌≤◌, ◌<◌, ◌≡◌, ◌≢◌, refl, sym, subst, ◌∙◌, inl, inr, Bool, true,
  false, some, List, ◌==◌, length, get_elem?, set as set_at, replicate, arith, Bool-cases,
  Option-cases, get_elem?-set_self, get_elem?-set_ne, get_elem?-lt, length-set, length-replicate,
  get_elem?-ge, ==→eq,
}
use wispy_vm.Vm.Cons
use wispy_vm.Vm.Cons.{Cons}
use wispy_vm.Vm.Memory.{Memory, ok, allocation_start, car, cdr}
use wispy_vm.Vm.Tags.{foreign_type}
use wispy_vm.Vm.Value
use wispy_vm.Vm.Value.{Value}
use wispy_vm.Vm.ValueInner.{to_i64}

-- The `k`-th allocated cell.
abbrev pub cell : Memory → ℕ → Cons
cell m k = Cons.new (allocation_start m + 2 * k)

-- The cell can be read, and if it is of a foreign value, it refers to one of the `n` places of the
-- table.
pub record IsTabledCell (n : ℕ) (m : Memory) (k : ℕ) : Type 0 where
  pub head : Value
  pub tail : Value
  pub reads_car : car (cell m k) m ≡ ok head m
  pub reads_cdr : cdr (cell m k) m ≡ ok tail m
  pub in_table : (Value.tag tail == foreign_type) ≡ true → to_i64 head < n

abbrev pub IsTabled : ℕ → Memory → Type 0
IsTabled n m = (k : ℕ) → k < m.allocation_index / 2 → IsTabledCell n m k

-- The `k`-th allocated cell is of the foreign value at the index `j`.
pub record RefersTo (m : Memory) (k j : ℕ) : Type 0 where
  pub head : Value
  pub tail : Value
  pub allocated : k < m.allocation_index / 2
  pub reads_car : car (cell m k) m ≡ ok head m
  pub reads_cdr : cdr (cell m k) m ≡ ok tail m
  pub foreign : (Value.tag tail == foreign_type) ≡ true
  pub index : to_i64 head ≡ j

set-marks :
    (marks : List Bool) (i j : ℕ)
    → get_elem? marks j ≡ some true
    → get_elem? (set_at marks i true) j ≡ some true
set-marks marks i j e = elim (Bool-cases (i == j)) [
  | inl same ↦ rw (==→eq i j same) (get_elem?-set_self marks j true (get_elem?-lt marks j true e))
  | inr other ↦ rw (get_elem?-set_ne marks i j true (λ p. ground arith)) e
]

mark-in :
    (i : ℕ) (marks : List Bool) (m : Memory)
    → i < length marks
    → mark i marks m ≡ ok (set_at marks i true) m
unfolding mark
mark-in i marks m h = elim (Option-cases (get_elem? marks i)) [
  | inl e ↦ absurd (omega (arith, get_elem?-ge marks i e))
  | inr (b, e) ↦ rw (e, mark) refl
]

ok-injective : {a b : Value} {m : Memory} → ok a m ≡ ok b m → a ≡ b
ok-injective e = cc

replicate-false : (n j : ℕ) → get_elem? (replicate n false) j ≡ some true → ⊥
replicate-false zero j e = cc
replicate-false (suc n) zero e = cc
replicate-false (suc n) (suc j) e = replicate-false n j e

module _ (n : ℕ) (m : Memory) where
  -- What marking the first cells leaves: a mark for each place, set where a cell refers to it.
  pub record Marked (count : ℕ) (marks : List Bool) : Type 0 where
    pub size : length marks ≡ n
    pub complete : (k j : ℕ) → k < count → RefersTo m k j → get_elem? marks j ≡ some true
    pub sound : (j : ℕ) → get_elem? marks j ≡ some true → (k : ℕ) × RefersTo m k j

  -- A cell that refers to a place is one of a foreign value with that index.
  RefersTo-cell :
      (k j : ℕ) (c : IsTabledCell n m k)
      → RefersTo m k j
      → ((Value.tag c.tail == foreign_type) ≡ true) × (to_i64 c.head ≡ j)
  RefersTo-cell k j c r =
      let heads : r.head ≡ c.head = ok-injective (sym r.reads_car ∙ c.reads_car) in
      let tails : r.tail ≡ c.tail = ok-injective (sym r.reads_cdr ∙ c.reads_cdr) in
      (rw (← tails) r.foreign, rw (← heads) r.index)

  Marked-foreign :
      (count : ℕ) (marks : List Bool) (c : IsTabledCell n m count)
      → count < m.allocation_index / 2
      → (Value.tag c.tail == foreign_type) ≡ true
      → Marked count marks
      → Marked (suc count) (set_at marks (to_i64 c.head) true)
  Marked-foreign count marks c a f d = record {
    size = length-set marks (to_i64 c.head) true ∙ d.size;
    complete = λ k j l r. elim (Bool-cases (k == count)) [
      | inl same ↦
          let at : to_i64 c.head ≡ j =
            (RefersTo-cell count j c (subst (λ i. RefersTo m i j) (==→eq k count same) r)).1 in
          let inside : to_i64 c.head < length marks = omega (arith, d.size, c.in_table f) in
          subst (λ i. get_elem? (set_at marks (to_i64 c.head) true) i ≡ some true) at
            (get_elem?-set_self marks (to_i64 c.head) true inside)
      | inr other ↦ set-marks marks (to_i64 c.head) j (d.complete k j (ground arith) r)
    ];
    sound = λ j e. elim (Bool-cases (to_i64 c.head == j)) [
      | inl same ↦ (
        count,
        record {
          head = c.head;
          tail = c.tail;
          allocated = a;
          reads_car = c.reads_car;
          reads_cdr = c.reads_cdr;
          foreign = f;
          index = ==→eq (to_i64 c.head) j same;
        },
      )
      | inr other ↦
          let apart : to_i64 c.head ≢ j = λ p. ground arith in
          d.sound j (sym (get_elem?-set_ne marks (to_i64 c.head) j true apart) ∙ e)
    ];
  }

  Marked-other :
      (count : ℕ) (marks : List Bool) (c : IsTabledCell n m count)
      → (Value.tag c.tail == foreign_type) ≡ false
      → Marked count marks
      → Marked (suc count) marks
  Marked-other count marks c h d = record {
    size = d.size;
    complete = λ k j l r. elim (Bool-cases (k == count)) [
      | inl same ↦
          let tag =
            (RefersTo-cell count j c (subst (λ i. RefersTo m i j) (==→eq k count same) r)).0 in
          cc
      | inr other ↦ d.complete k j (ground arith) r
    ];
    sound = d.sound;
  }

  mark_cell-Marked :
      (count : ℕ) (marks : List Bool)
      → IsTabledCell n m count
      → count < m.allocation_index / 2
      → Marked count marks
      → (marks' : List Bool) × (mark_cell (cell m count) marks m ≡ ok marks' m)
        × Marked (suc count) marks'
  unfolding mark_cell
  mark_cell-Marked count marks c a d = elim (Bool-cases (Value.tag c.tail == foreign_type)) [
    | inl foreign ↦
        let inside : to_i64 c.head < length marks = omega (arith, c.in_table foreign, d.size) in
        (
          set_at marks (to_i64 c.head) true,
          rw (c.reads_cdr, foreign, c.reads_car) (mark-in (to_i64 c.head) marks m inside),
          Marked-foreign count marks c a foreign d,
        )
    | inr other ↦ (marks, rw (c.reads_cdr, other) refl, Marked-other count marks c other d)
  ]

  pub mark_cells-Marked :
      IsTabled n m
      → (count : ℕ) → count ≤ m.allocation_index / 2
      → (marks : List Bool) × (mark_cells count (replicate n false) m ≡ ok marks m)
        × Marked count marks
  unfolding mark_cells
  mark_cells-Marked t zero h = (
    replicate n false,
    refl,
    record {
      size = length-replicate n false;
      complete = λ k j l r. absurd (omega arith);
      sound = λ j e. absurd (replicate-false n j e);
    },
  )
  mark_cells-Marked t (suc count) h =
      let (marks, run, d) = mark_cells-Marked t count (omega arith) in
      let (marks', run', d') = mark_cell-Marked count marks (t count h) h d in
      (marks', rw run run', d')
