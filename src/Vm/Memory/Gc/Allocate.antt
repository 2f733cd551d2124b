-- ===== src/Vm/Memory/Gc/Allocate.antt =====
-- `allocate` of vm/src/memory.rs keeps a memory sound, whether it collects or not, and gives the new cell.
use mathlib.Core.Bool.{false≢true}
use wispy_vm.Prelude.{
  ℕ, suc, ◌+◌, ◌*◌, ◌/◌, ◌%◌, ◌≤◌, ◌<◌, ◌≡◌, ◌⊎◌, inl, inr, refl, sym, ap, ◌∙◌, subst, true, false,
  some, arith, Bool-cases,
}
use native.Mathlib.Decide.{dec_lt}
use wispy_vm.Vm.Error.{Error}
use wispy_vm.Vm.Cons
use wispy_vm.Vm.Cons.{Cons, index-new, is_cons-new}
use wispy_vm.Vm.Value.{Value}
use wispy_vm.Vm.Memory.{
  Memory, ok, err, space_size, allocation_start, allocation_end, allocate_unchecked,
  is_out_of_memory,
}
use wispy_vm.Vm.Memory.Access.{word_at}
use wispy_vm.Vm.Memory.Gc.{allocate, collect_garbages}
use wispy_vm.Vm.Memory.Gc.Relocate.{Reloc, number, nowhere, moved, is_moved}
use wispy_vm.Vm.Memory.Gc.Sound.{IsRoot, IsSound, IsCell, cells, setup}
use wispy_vm.Vm.Memory.Gc.Collect.{Collected, collect_garbages-Collected}
use wispy_vm.Vm.Memory.Gc.Preserve.{
  some_root, start-after, cells-after, Collected-IsSound, Reloc-IsRoot,
}
use wispy_vm.Vm.Memory.Gc.Grow.{
  IsHeld, grown, address, start-grown, cells-grown, at-end, word_car, word_cdr, new_cell-IsRoot,
  IsSound-grown, allocate-run,
}

-- The cons is an allocated cell whose fields are `R`-images of two values.
pub record Holds (m : Memory) (R : Value → Value → Type 0) (a d : Value) (c : Cons) : Type 0 where
  pub is_cell : IsCell m c
  pub first : R a (word_at m (allocation_start m + 2 * is_cell.number))
  pub second : R d (word_at m (allocation_start m + suc (2 * is_cell.number)))

abbrev pub Same : Value → Value → Type 0
Same v w = w ≡ v

module _ (m : Memory) (s : IsSound m) (a d : Value) (ha : IsHeld m a) (fresh : is_moved a ≡ false)
    (hd : IsHeld m d) where
  -- An allocation with no collection: the memory is the old one with the new cell, which is not one of
  -- the old ones and holds the two values.
  pub record Added (c : Cons) (m' : Memory) : Type 0 where
    pub spare : is_out_of_memory (grown m a d) ≡ false
    pub memory : m' ≡ grown m a d
    pub holds : Holds m' Same a d c
    pub behind : holds.is_cell.number ≡ cells m

  -- An allocation that uses up the space: the memory is what a collection leaves of the old one with
  -- the new cell, and the cell that is returned holds the two values relocated.
  pub record Moved (room : m.allocation_index < space_size m) (c : Cons) (m' : Memory)
      : Type 0 where
    pub full : is_out_of_memory (grown m a d) ≡ true
    pub collected :
        Collected
          (grown m a d)
          (IsSound-grown m s room a d ha fresh hd)
          (some (Cons.new (allocation_end m)))
          (collect_garbages (some (Cons.new (allocation_end m))) (grown m a d))
    pub memory : m' ≡ collected.after
    pub holds :
        Holds m'
          (Reloc
            (setup (grown m a d) (IsSound-grown m s room a d ha fresh hd))
            collected.count
            collected.src)
          a
          d
          c

  module _ (room : m.allocation_index < space_size m) where
    abbrev after : Memory
    after = grown m a d

    abbrev sound : IsSound after
    sound = IsSound-grown m s room a d ha fresh hd

    abbrev new_cell : Cons
    new_cell = Cons.new (allocation_end m)

    abbrev new_root : IsRoot after new_cell
    new_root = new_cell-IsRoot m s room a d ha fresh hd

    at-new : Cons.index new_cell ≡ allocation_start after + 2 * cells m
    at-new =
        index-new (allocation_end m) (address m s room a d)
        ∙ at-end m s room a d
        ∙ ap (λ n. n + 2 * cells m) (sym (start-grown m s room a d))

    first-new : word_at after (allocation_start after + 2 * cells m) ≡ a
    first-new =
        let even : 2 * cells m ≡ m.allocation_index = omega (arith, s.paired) in
        rw (start-grown m s room a d, even) (word_car m s room a d)

    second-new : word_at after (allocation_start after + suc (2 * cells m)) ≡ d
    second-new =
        let even : 2 * cells m ≡ m.allocation_index = omega (arith, s.paired) in
        rw (start-grown m s room a d, even) (word_cdr m s room a d)

    new_cell-Added : is_out_of_memory after ≡ false → Added new_cell after
    new_cell-Added spare = record {
      spare = spare;
      memory = refl;
      holds = record {
        is_cell = record {
          number = cells m;
          allocated = omega (arith, cells-grown m s room a d);
          at = at-new;
        };
        first = first-new;
        second = second-new;
      };
      behind = refl;
    }

    abbrev collection :
        Collected after sound (some new_cell) (collect_garbages (some new_cell) after)
    collection = collect_garbages-Collected after sound (some new_cell) new_root

    abbrev Image : Value → Value → Type 0
    Image = Reloc (setup after sound) collection.count collection.src

    start_even : allocation_start after % 2 ≡ 0
    unfolding allocation_start space_size
    start_even = ground (arith, sound.whole)

    old-start : (setup after sound).old ≡ allocation_start after
    unfolding setup
    old-start = refl

    -- The image of the new cell is a copy, since its address is even.
    copied_cell :
        {c : Cons}
        → Image new_cell c
        → (j : ℕ) × (j < collection.count)
          × (collection.src j ≡ cells m)
          × (Cons.index c ≡ allocation_start collection.after + 2 * j)
    copied_cell (number e) = absurd (false≢true (sym e ∙ is_cons-new (allocation_end m)))
    copied_cell (nowhere c e w c' e' t) = absurd (omega (arith, at-new, start_even, e))
    copied_cell (moved j hj c e w c' e' t) = (
      j,
      hj,
      omega (arith, at-new, old-start, e),
      e' ∙ ap (λ n. n + 2 * j) (sym (start-after after sound collection)),
    )

    -- The words of the copy are the images of those of the new cell.
    copied :
        (j p q : ℕ) (v : Value)
        → j < collection.count
        → collection.src j ≡ cells m
        → q / 2 ≡ j
        → 2 * cells m + q % 2 ≡ p
        → word_at after (allocation_start after + p) ≡ v
        → Image v (word_at collection.after (allocation_start collection.after + q))
    copied j p q v hj e half at word =
        let source : 2 * collection.src (q / 2) + q % 2 ≡ p =
          ap (λ n. 2 * collection.src n + q % 2) half ∙ ap (λ n. 2 * n + q % 2) e ∙ at in
        subst (λ w. Image w (word_at collection.after (allocation_start collection.after + q)))
          (ap (λ k. word_at after (allocation_start after + k)) source ∙ word)
          (collection.words q (omega arith))

    new_cell-Moved :
        is_out_of_memory after ≡ true
        → (c : Cons) → Image new_cell c
        → Moved room c collection.after
    new_cell-Moved full c x =
        let (j, hj, e, at) = copied_cell x in
        record {
          full = full;
          collected = collection;
          memory = refl;
          holds = record {
            is_cell = record {
              number = j;
              allocated = omega (arith, cells-after after sound collection);
              at = at;
            };
            first = copied j (2 * cells m) (2 * j) a hj e (omega arith) (omega arith) first-new;
            second =
                copied j (suc (2 * cells m)) (suc (2 * j)) d hj e (omega arith) (omega arith)
                  second-new;
          };
        }

  -- What an allocation ends with: the error exactly when the space was used up, and else a sound memory
  -- with the new cell, added or moved by a collection.
  abbrev pub Allocates : Type 0
  Allocates =
      ((space_size m ≤ m.allocation_index) × (allocate a d m ≡ err Error.out_of_memory m))
      ⊎ ((room : m.allocation_index < space_size m) × ((c : Cons) × (m' : Memory) × (allocate a d m
              ≡ ok c m')
            × IsSound m'
            × IsRoot m' c
            × (Added c m' ⊎ Moved room c m')))

  -- An allocation in a sound memory, of two values that it holds, of which the first is not the null
  -- pointer: when the space was used up before it, it is the error and changes nothing. Else it returns
  -- a cell of a sound memory. If this does not use up the space, the memory is the old one with a cell
  -- behind the others, which is the one returned and holds the two values. If it does, the memory is
  -- what a collection leaves of the one with that cell, and the cell returned holds the two values
  -- relocated as the collection relocates every word.
  pub allocate-IsSound : Allocates
  unfolding allocate
  allocate-IsSound = elim (dec_lt m.allocation_index (space_size m)) [
    | no full ↦ inl (omega arith, unfold allocate_unchecked is_out_of_memory in ground arith)
    | yes room ↦
        let run = allocate-run m s room a d ha fresh hd in
        inr (
          room,
          elim (Bool-cases (is_out_of_memory (grown m a d))) [
            | inl full ↦
                let p = collection room in
                let (c', e, x) =
                  some_root (setup (after room) (sound room)) (new_cell room) p.new_extra
                    p.extra_root in
                (
                  c',
                  p.after,
                  rw (run, full, p.runs ∙ ap (λ o. ok o p.after) e) refl,
                  Collected-IsSound (after room) (sound room) p,
                  Reloc-IsRoot (after room) (sound room) p (new_root room) x,
                  inr (new_cell-Moved room full c' x),
                )
            | inr free ↦ (
              new_cell room,
              after room,
              rw (run, free) refl,
              sound room,
              new_root room,
              inl (new_cell-Added room free),
            )
          ],
        )
  ]
