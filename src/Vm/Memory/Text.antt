-- ===== src/Vm/Memory/Text.antt =====
-- vm/src/memory.rs: strings. A string is the list of its code points.
use wispy_vm.Prelude.{ℕ, zero, suc, List, [], ◌∷◌, if◌then◌else◌}
use wispy_vm.Vm.Error.{Error}
use wispy_vm.Vm.Tags.{string_type}
use wispy_vm.Vm.Cons
use wispy_vm.Vm.Cons.{Cons}
use wispy_vm.Vm.Value
use wispy_vm.Vm.ValueInner.{from_i64}
use wispy_vm.Vm.Memory.{
  M, Outcome, ok, err, stuck, and_then, ◌>>=◌, pure, gets, modify, cdr, set_cdr,
}
use wispy_vm.Vm.Memory.Gc.{allocate}
use wispy_vm.Vm.Memory.Stack.{null, cons, list_length}

-- The loop over `chars().rev()`: the last character is consed first.
unfoldable pub build_intermediate_string : List ℕ → Cons → M Cons
build_intermediate_string [] list = pure list
build_intermediate_string (c ∷ cs) list = do
  rest ← build_intermediate_string cs list
  cons (from_i64 c) rest

unfoldable pub build_raw_string : List ℕ → M Cons
build_raw_string text = do nil ← null; build_intermediate_string text nil

unfoldable pub build_string : ℕ → List ℕ → M Cons
build_string fuel text = do
  string ← build_raw_string text
  n ← list_length fuel string
  allocate (from_i64 n) (Cons.set_tag string string_type)

-- The `while` loop of `write_str`: to the last cell of the list in the register.
unfoldable pub last_cell : ℕ → Cons → M Cons
last_cell zero head m = stuck
last_cell (suc fuel) head m = and_then (cdr head m) (λ next m'. and_then (null m') (λ nil m''.
    let more : Outcome Cons = last_cell fuel next m'' in
    if Value.eq next nil then ok head m'' else more))

unfoldable pub write_list : ℕ → List ℕ → M (Unit {0})
write_list fuel text = do
  nil ← null
  list ← build_intermediate_string text nil
  register ← gets (λ m. m.register)
  nil' ← null
  if Cons.eq register nil'
      then modify (λ m. record m { register = list })
      else do head ← last_cell fuel register; set_cdr head list

-- Every error is turned into a `fmt::Error`.
abbrev pub as_format_error : Outcome (Unit {0}) → Outcome (Unit {0})
as_format_error (ok a m) = ok a m
as_format_error (err e m) = err Error.format m
as_format_error stuck = stuck

unfoldable pub write_str : ℕ → List ℕ → M (Unit {0})
write_str fuel text m = as_format_error (write_list fuel text m)
