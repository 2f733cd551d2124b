-- ===== src/Dynamic/Table/Safety.antt =====
-- A value that a cell of the memory refers to stays in the table.
use wispy_vm.Dynamic.Table.Marks.{IsTabled, RefersTo, mark_cells-Marked}
use wispy_vm.Dynamic.Table.{
  drop_unmarked, collect_garbages, find_free_from, find_free, find_or_push, allocate,
}
use wispy_vm.Prelude.{
  ℕ, zero, suc, ◌+◌, ◌/◌, ◌<◌, ◌≡◌, refl, ap, ◌∙◌, inl, inr, Bool, true, false, Option, none, some,
  List, [], ◌∷◌, ◌++◌, length, get_elem?, arith, Option-cases, get_elem?-lt, get_elem?-ge,
}
use wispy_vm.Vm.Memory.{Memory, ok}

unmarked :
    (marks : List Bool) (j : ℕ)
    → j < length marks
    → (get_elem? marks j ≡ some true → ⊥)
    → get_elem? marks j ≡ some false
unmarked marks j h n = elim (Option-cases (get_elem? marks j)) [
  | inl e ↦ absurd (omega (arith, get_elem?-ge marks j e))
  | inr (true, e) ↦ absurd (n e)
  | inr (false, e) ↦ e
]

module _ {V : Type 0} where
  drop_unmarked-marked :
      (marks : List Bool) (values : List (Option V)) (j : ℕ)
      → get_elem? marks j ≡ some true
      → get_elem? (drop_unmarked marks values) j ≡ get_elem? values j
  unfolding drop_unmarked
  drop_unmarked-marked [] values j e = cc
  drop_unmarked-marked (b ∷ marks) [] j e = refl
  drop_unmarked-marked (true ∷ marks) (v ∷ values) zero e = refl
  drop_unmarked-marked (false ∷ marks) (v ∷ values) zero e = cc
  drop_unmarked-marked (b ∷ marks) (v ∷ values) (suc j) e = drop_unmarked-marked marks values j e

  -- A collection ends, and keeps each value that an allocated cell refers to.
  pub collect_garbages-keeps :
      (values : List (Option V)) (m : Memory)
      → IsTabled (length values) m
      → (values' : List (Option V)) × (collect_garbages values m ≡ ok values' m)
        × ((k j : ℕ) → RefersTo m k j → get_elem? values' j ≡ get_elem? values j)
  unfolding collect_garbages
  collect_garbages-keeps values m t =
      let count = m.allocation_index / 2 in
      let (marks, run, d) = mark_cells-Marked (length values) m t count (omega arith) in
      (
        drop_unmarked marks values,
        rw run refl,
        λ k j r. drop_unmarked-marked marks values j (d.complete k j r.allocated r),
      )

  drop_unmarked-unmarked :
      (marks : List Bool) (values : List (Option V)) (j : ℕ) (v : Option V)
      → get_elem? marks j ≡ some false
      → get_elem? values j ≡ some v
      → get_elem? (drop_unmarked marks values) j ≡ some none
  unfolding drop_unmarked
  drop_unmarked-unmarked [] values j v e h = cc
  drop_unmarked-unmarked (b ∷ marks) [] j v e h = cc
  drop_unmarked-unmarked (true ∷ marks) (w ∷ values) zero v e h = cc
  drop_unmarked-unmarked (false ∷ marks) (w ∷ values) zero v e h = refl
  drop_unmarked-unmarked (b ∷ marks) (w ∷ values) (suc j) v e h =
      drop_unmarked-unmarked marks values j v e h

  -- A collection ends, and frees every place that no allocated cell refers to.
  pub collect_garbages-frees :
      (values : List (Option V)) (m : Memory)
      → IsTabled (length values) m
      → (values' : List (Option V)) × (collect_garbages values m ≡ ok values' m)
        × ((j : ℕ) (v : Option V)
            → get_elem? values j ≡ some v
            → ((k : ℕ) → RefersTo m k j → ⊥)
            → get_elem? values' j ≡ some none)
  unfolding collect_garbages
  collect_garbages-frees values m t =
      let count = m.allocation_index / 2 in
      let (marks, run, d) = mark_cells-Marked (length values) m t count (omega arith) in
      (
        drop_unmarked marks values,
        rw run refl,
        λ j v h none_left.
            let inside : j < length marks = omega (arith, get_elem?-lt values j v h, d.size) in
            drop_unmarked-unmarked marks values j v
              (unmarked marks j inside (λ e. let (k, r) = d.sound j e in none_left k r)) h,
      )

  find_free_from-free :
      (i : ℕ) (values : List (Option V)) (r : ℕ)
      → find_free_from i values ≡ some r
      → (d : ℕ) × (r ≡ i + d) × (get_elem? values d ≡ some none)
  unfolding find_free_from
  find_free_from-free i [] r e = cc
  find_free_from-free i (none ∷ values) r e = (0, ground arith, refl)
  find_free_from-free i (some v ∷ values) r e =
      let (d, at, free) = find_free_from-free (i + 1) values r e in (suc d, omega arith, free)

  find_free-free :
      (values : List (Option V)) (r : ℕ)
      → find_free values ≡ some r
      → get_elem? values r ≡ some none
  unfolding find_free
  find_free-free values r e =
      let (d, at, free) = find_free_from-free 0 values r e in
      let same : d ≡ r = omega arith in rw (← same) free

  get_elem?-append :
      (values : List (Option V)) (j : ℕ) (v : Option V)
      → get_elem? values j ≡ some v
      → get_elem? (values ++ none ∷ []) j ≡ some v
  get_elem?-append [] j v e = cc
  get_elem?-append (w ∷ values) zero v e = e
  get_elem?-append (w ∷ values) (suc j) v e = get_elem?-append values j v e

  get_elem?-end :
      (values : List (Option V)) → get_elem? (values ++ none ∷ []) (length values) ≡ some none
  get_elem?-end [] = refl
  get_elem?-end (w ∷ values) = get_elem?-end values

  find_or_push-some :
      (values : List (Option V)) (r : ℕ)
      → find_free values ≡ some r
      → find_or_push values ≡ (r, values)
  unfolding find_or_push
  find_or_push-some values r e = rw (e, find_or_push) refl

  find_or_push-none :
      (values : List (Option V))
      → find_free values ≡ none
      → find_or_push values ≡ (length values, values ++ none ∷ [])
  unfolding find_or_push
  find_or_push-none values e = rw (e, find_or_push) refl

  -- The place is free, and every value is where it was.
  find_or_push-keeps :
      (values : List (Option V))
      → (i : ℕ) × (values' : List (Option V)) × (find_or_push values ≡ (i, values'))
        × (get_elem? values' i ≡ some none)
        × ((j : ℕ) (v : Option V) → get_elem? values j ≡ some v → get_elem? values' j ≡ some v)
  find_or_push-keeps values = elim (Option-cases (find_free values)) [
    | inl e ↦ (
      length values,
      values ++ none ∷ [],
      find_or_push-none values e,
      get_elem?-end values,
      get_elem?-append values,
    )
    | inr (r, e) ↦ (r, values, find_or_push-some values r e, find_free-free values r e, λ j v h. h)
  ]

  allocate-some :
      (values : List (Option V)) (m : Memory) (r : ℕ)
      → find_free values ≡ some r
      → allocate values m ≡ ok (r, values) m
  unfolding allocate
  allocate-some values m r e = rw (e, allocate) refl

  allocate-none :
      (values values' : List (Option V)) (m : Memory)
      → find_free values ≡ none
      → collect_garbages values m ≡ ok values' m
      → allocate values m ≡ ok (find_or_push values') m
  unfolding allocate
  allocate-none values values' m e run = rw (e, run, allocate) refl

  -- Where every allocated cell can be read and refers to a place in the table if it is of a foreign
  -- value, a place is found that is free, and every value that an allocated cell refers to is where it
  -- was.
  pub allocate-keeps :
      (values : List (Option V)) (m : Memory)
      → IsTabled (length values) m
      → (i : ℕ) × (values' : List (Option V)) × (allocate values m ≡ ok (i, values') m)
        × (get_elem? values' i ≡ some none)
        × ((k j : ℕ) (v : V)
            → RefersTo m k j
            → get_elem? values j ≡ some (some v)
            → get_elem? values' j ≡ some (some v))
  allocate-keeps values m t = elim (Option-cases (find_free values)) [
    | inl e ↦
        let (kept, run, keeps) = collect_garbages-keeps values m t in
        let (i, values', found, free, stays) = find_or_push-keeps kept in
        (
          i,
          values',
          allocate-none values kept m e run ∙ ap (λ p. ok p m) found,
          free,
          λ k j v r h. stays j (some v) (keeps k j r ∙ h),
        )
    | inr (r, e) ↦
        (r, values, allocate-some values m r e, find_free-free values r e, λ k j v _ h. h)
  ]
