-- ===== src/Profiler/Flamegraph.antt =====
-- profiler/src/flamegraph.rs: the total time of each stack. The map of the source, a `BTreeMap`, is a
-- list of its entries in the order of their keys.
pub mod Entries
pub mod Totals
use Prim.Native.Nat.{compare}
use wispy_vm.Prelude.{ℕ, ◌+◌, ◌%◌, ◌^◌, Option, none, some, List, [], ◌∷◌, ◌++◌}
use wispy_vm.Profiler.Order.{Ordering, lt, eq, gt, compare_option, compare_list}
use wispy_vm.Profiler.Record.{DurationRecord}
use wispy_vm.Profiler.Stack.{Stack, display_local}
use wispy_vm.Profiler.Text.{show_number}
use wispy_vm.Profiler.{Chars, Error, Result, ok, err}

-- The derived order of stacks. That of strings is the order of their code points.
unfoldable pub compare_stack : Stack → Stack → Ordering
compare_stack s t = compare_list (compare_option (compare_list compare)) s.frames t.frames

abbrev pub TimeMap : Type 0
TimeMap = List (Stack × ℕ)

-- `BTreeMap::get`
unfoldable pub get_time : Stack → TimeMap → Option ℕ
get_time s [] = none
get_time s ((t, time) ∷ m) = elim (compare_stack s t) [
  | lt ↦ none
  | eq ↦ some time
  | gt ↦ get_time s m
]

-- `BTreeMap::insert`, and the write to a value that is there.
unfoldable pub insert_time : Stack → ℕ → TimeMap → TimeMap
insert_time s time [] = (s, time) ∷ []
insert_time s time ((t, old) ∷ m) = elim (compare_stack s t) [
  | lt ↦ (s, time) ∷ (t, old) ∷ m
  | eq ↦ (t, time) ∷ m
  | gt ↦ (t, old) ∷ insert_time s time m
]

-- The body of the loop over the records. The sum of two `u128` wraps around where overflow is not
-- checked.
unfoldable pub add_record : DurationRecord → TimeMap → TimeMap
unfolding insert_time get_time
add_record r m = elim (get_time r.stack m) [
  | some time ↦ insert_time r.stack ((time + r.time) % 2 ^ 128) m
  | none ↦ insert_time r.stack r.time m
]

unfoldable pub collect_times : TimeMap → List (Result DurationRecord) → Result TimeMap
unfolding add_record
collect_times m [] = ok m
collect_times m (err e ∷ items) = err e
collect_times m (ok r ∷ items) = collect_times (add_record r m) items

abbrev pub local_chars : Chars
local_chars = b'<' ∷ b'l' ∷ b'o' ∷ b'c' ∷ b'a' ∷ b'l' ∷ b'>' ∷ []

unfoldable pub write_times : TimeMap → Chars
write_times [] = []
write_times ((s, time) ∷ m) =
    display_local local_chars s ++ (b' ' ∷ (show_number time ++ (10 ∷ write_times m)))

-- The text that is written, and the result.
unfoldable pub calculate_flamegraph : List (Result DurationRecord) → Chars × Result (Unit {0})
unfolding collect_times write_times
calculate_flamegraph items = elim (collect_times [] items) [
  | ok m ↦ (write_times m, ok tt)
  | err e ↦ ([], err e)
]
