-- ===== src/Dynamic/Table.antt =====
-- dynamic/src/primitive_set.rs: the table of the values that Scheme holds, and its collection.
pub mod Marks
pub mod Safety
use wispy_vm.Prelude.{
  ℕ, zero, suc, ◌+◌, ◌*◌, ◌/◌, Bool, true, false, Option, none, some, List, [], ◌∷◌, ◌++◌, ◌==◌,
  if◌then◌else◌, get_elem?, set as set_at, length, replicate,
}
use wispy_vm.Vm.Cons
use wispy_vm.Vm.Cons.{Cons}
use wispy_vm.Vm.Memory.{Memory, M, Outcome, ok, err, stuck, and_then, allocation_start, car, cdr}
use wispy_vm.Vm.Tags.{foreign_type}
use wispy_vm.Vm.Value
use wispy_vm.Vm.ValueInner.{to_i64}

-- `marks.set`, which panics out of bounds.
unfoldable pub mark : ℕ → List Bool → M (List Bool)
mark index marks m = elim (get_elem? marks index) [
  | none ↦ stuck
  | some _ ↦ ok (set_at marks index true) m
]

-- The body of the loop over the cells: the mark of a cell of a foreign value.
unfoldable pub mark_cell : Cons → List Bool → M (List Bool)
mark_cell cons marks m = and_then (cdr cons m) (λ tail m'.
    let marked = and_then (car cons m') (λ v m''. mark (to_i64 v) marks m'') in
    if Value.tag tail == foreign_type then marked else ok marks m')

-- The loop over `count` allocated cells, in their order.
unfoldable pub mark_cells : ℕ → List Bool → M (List Bool)
mark_cells zero marks m = ok marks m
mark_cells (suc count) marks m =
    and_then (mark_cells count marks m)
      (λ marks' m'. mark_cell (Cons.new (allocation_start m' + 2 * count)) marks' m')

module _ {V : Type 0} where
  -- The loop over the marks.
  unfoldable pub drop_unmarked : List Bool → List (Option V) → List (Option V)
  drop_unmarked [] values = values
  drop_unmarked (b ∷ marks) [] = []
  drop_unmarked (b ∷ marks) (v ∷ values) = (if b then v else none) ∷ drop_unmarked marks values

  unfoldable pub collect_garbages : List (Option V) → M (List (Option V))
  collect_garbages values m =
      and_then (mark_cells (m.allocation_index / 2) (replicate (length values) false) m)
        (λ marks m'. ok (drop_unmarked marks values) m')

  -- The first free index, from `index` on.
  unfoldable pub find_free_from : ℕ → List (Option V) → Option ℕ
  find_free_from index [] = none
  find_free_from index (none ∷ values) = some index
  find_free_from index (some v ∷ values) = find_free_from (index + 1) values

  unfoldable pub find_free : List (Option V) → Option ℕ
  unfolding find_free_from
  find_free values = find_free_from 0 values

  -- `allocate` behind the collection: a free index, or a new one.
  unfoldable pub find_or_push : List (Option V) → ℕ × List (Option V)
  unfolding find_free
  find_or_push values = elim (find_free values) [
    | some index ↦ (index, values)
    | none ↦ (length values, values ++ none ∷ [])
  ]

  unfoldable pub allocate : List (Option V) → M (ℕ × List (Option V))
  unfolding find_or_push collect_garbages
  allocate values m = elim (find_free values) [
    | some index ↦ ok (index, values) m
    | none ↦ and_then (collect_garbages values m) (λ values' m'. ok (find_or_push values') m')
  ]
