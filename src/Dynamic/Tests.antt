-- ===== src/Dynamic/Tests.antt =====
-- The table of foreign values and the conversions at concrete inputs.
use wispy_vm.Dynamic.Table.{
  collect_garbages, find_or_push, mark_cells, mark_cell, mark, drop_unmarked, allocate,
}
use wispy_vm.Dynamic.Table.Marks.{IsTabled, RefersTo}
use wispy_vm.Dynamic.Table.Safety.{allocate-keeps, collect_garbages-frees}
use wispy_vm.Dynamic.Values.{
  i8, integer_from_scheme, integer_into_scheme, bool_from_scheme, bool_into_scheme,
}
use wispy_vm.Dynamic.Values.RoundTrip.{
  extend-Is63Bit, integer_from_scheme-integer_into_scheme, bool_from_scheme-bool_into_scheme,
}
use wispy_vm.Prelude.{
  ℕ, zero, suc, ◌≡◌, refl, true, false, Option, none, some, List, [], ◌∷◌, get_elem?, arith,
}
use wispy_vm.Vm.Cons
use wispy_vm.Vm.Memory.{Memory, ok, get, car, cdr, allocation_start, ◌>>=◌}
use wispy_vm.Vm.Memory.Stack.{boolean}
use wispy_vm.Vm.Value
use wispy_vm.Vm.ValueInner.{to_i64}

-- Null at 0, false at 2, whose `cdr` is the true value at 0, and a foreign value at 4, which has the
-- index 1.
abbrev foreign : Memory
foreign = record {
  code = 0;
  stack = 0;
  false_cons = 262144;
  register = 0;
  allocation_index = 6;
  space = false;
  heap = 1 ∷ 1 ∷ 0 ∷ 0 ∷ 3 ∷ 131070 ∷ 0 ∷ 0 ∷ 0 ∷ 0 ∷ 0 ∷ 0 ∷ 0 ∷ 0 ∷ 0 ∷ 0 ∷ [];
}

abbrev two_values : List (Option ℕ)
two_values = some 10 ∷ some 20 ∷ []

-- The value that no cell refers to makes room.
allocate_two : allocate two_values foreign ≡ ok (0, none ∷ some 20 ∷ []) foreign
unfolding allocate collect_garbages find_or_push mark_cells mark_cell mark drop_unmarked car cdr get
    Cons.index Cons.new allocation_start Value.tag to_i64
allocate_two = refl

foreign-IsTabled : IsTabled 2 foreign
unfolding car cdr get Cons.index Cons.new allocation_start Value.tag to_i64
foreign-IsTabled zero h = record {
  head = 1;
  tail = 1;
  reads_car = refl;
  reads_cdr = refl;
  in_table = λ e. cc;
}
foreign-IsTabled (suc zero) h = record {
  head = 0;
  tail = 0;
  reads_car = refl;
  reads_cdr = refl;
  in_table = λ e. cc;
}
foreign-IsTabled (suc (suc zero)) h = record {
  head = 3;
  tail = 131070;
  reads_car = refl;
  reads_cdr = refl;
  in_table = λ e. omega arith;
}
foreign-IsTabled (suc (suc (suc k))) h = absurd (omega arith)

allocate-keeps_example :
    (i : ℕ) × (values' : List (Option ℕ)) × (allocate two_values foreign ≡ ok (i, values') foreign)
    × (get_elem? values' i ≡ some none)
    × ((k j : ℕ) (v : ℕ)
        → RefersTo foreign k j
        → get_elem? two_values j ≡ some (some v)
        → get_elem? values' j ≡ some (some v))
allocate-keeps_example = allocate-keeps two_values foreign foreign-IsTabled

collect_garbages-frees_example :
    (values' : List (Option ℕ)) × (collect_garbages two_values foreign ≡ ok values' foreign)
    × ((j : ℕ) (v : Option ℕ)
        → get_elem? two_values j ≡ some v
        → ((k : ℕ) → RefersTo foreign k j → ⊥)
        → get_elem? values' j ≡ some none)
collect_garbages-frees_example = collect_garbages-frees two_values foreign foreign-IsTabled

integer_from_scheme-integer_into_scheme_example :
    integer_from_scheme i8 (integer_into_scheme i8 200) ≡ some 200
integer_from_scheme-integer_into_scheme_example =
    integer_from_scheme-integer_into_scheme i8 200 (omega arith)
      (extend-Is63Bit i8 200 (omega arith) (omega arith))

true_comes_back_false :
    (bool_into_scheme true >>= bool_from_scheme) foreign ≡ ok (some false) foreign
unfolding boolean cdr get Cons.index Value.eq Cons.eq
true_comes_back_false = bool_from_scheme-bool_into_scheme true 0 262144 foreign refl refl refl refl
