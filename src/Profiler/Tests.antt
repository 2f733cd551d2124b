-- ===== src/Profiler/Tests.antt =====
-- The profiler at concrete profiles, among them those of its own tests.
use wispy_vm.Native.List.Search.{IsList, end, next}
use wispy_vm.Prelude.{◌≡◌, refl, false, true, none, some, List, [], ◌∷◌, ◌++◌, map, arith}
use wispy_vm.Profiler.Command.Pipeline.{profile, analyze-analyze}
use wispy_vm.Profiler.Command.{duration, flamegraph, analyze}
use wispy_vm.Profiler.Duration.Trace.{
  Activity, returns, calls, tail_calls, event, trace, durations, calculate_durations-trace,
}
use wispy_vm.Profiler.Duration.{sub_time, calculate_durations}
use wispy_vm.Profiler.Flamegraph.Entries.{IsSorted}
use wispy_vm.Profiler.Flamegraph.Totals.{total_time, calculate_flamegraph-totals}
use wispy_vm.Profiler.Order.{compare_list, compare_option}
use wispy_vm.Profiler.Text.{split, show_number}
use wispy_vm.Profiler.Flamegraph.{
  compare_stack, TimeMap, get_time, write_times, calculate_flamegraph,
}
use wispy_vm.Profiler.Record.{
  call, return, return_call, ProcedureRecord, DurationRecord, parse_procedure, parse_operation,
  procedure_record, show_procedure,
}
use wispy_vm.Profiler.Stack.Collapse.{Run, IsMaximal, expand, run_frame, collapse_frames-runs}
use wispy_vm.Profiler.Stack.Format.{show_stack-parse_stack}
use wispy_vm.Profiler.Stack.{Stack, collapse_frames, parse_stack, show_stack, display_local}
use wispy_vm.Profiler.StackProfiler.Lines.{
  IsNamed, named, IsStack, bottom, frame, record_of, call_names, profile_call-IsStack,
}
use wispy_vm.Profiler.StackProfiler.{character, profile_call}
use wispy_vm.Profiler.Stream.RoundTrip.{read_records-write_records}
use wispy_vm.Profiler.Stream.{read_records, write_records}
use wispy_vm.Profiler.{Chars, ok, err, missing_call_record, missing_time, unknown_record_type}
use wispy_vm.Vm.Cons
use wispy_vm.Vm.Memory.{Memory, get, car, cdr}
use wispy_vm.Vm.Memory as VmMemory
use wispy_vm.Vm.Memory.Stack.{null}
use wispy_vm.Vm.Value
use wispy_vm.Vm.ValueInner.{to_i64}

abbrev foo : Chars
foo = b'f' ∷ b'o' ∷ b'o' ∷ []

abbrev bar : Chars
bar = b'b' ∷ b'a' ∷ b'r' ∷ []

abbrev foo_bar : Stack
foo_bar = record { frames = some foo ∷ some bar ∷ [] }

abbrev anonymous_bar : Stack
anonymous_bar = record { frames = none ∷ some bar ∷ [] }

abbrev repeated : Stack
repeated = record { frames = some bar ∷ none ∷ none ∷ some foo ∷ some foo ∷ [] }

abbrev two_records : List ProcedureRecord
two_records =
    record { operation = call; stack = foo_bar; time = 7 }
    ∷ record { operation = return_call; stack = anonymous_bar; time = 2045 }
    ∷ []

-- A call that makes a nested call, goes on as another procedure, and returns.
abbrev busy : Activity
busy =
    calls foo_bar 1 (returns foo_bar 42) (tail_calls anonymous_bar 84 (returns anonymous_bar 126))

abbrev three_durations : List DurationRecord
three_durations =
    record { stack = foo_bar; time = 2 }
    ∷ record { stack = anonymous_bar; time = 3 }
    ∷ record { stack = foo_bar; time = 42 }
    ∷ []

collapse_repeated : (collapse_frames repeated).frames ≡ some bar ∷ none ∷ some foo ∷ []
unfolding collapse_frames
collapse_repeated = refl

show_anonymous : show_stack anonymous_bar ≡ b';' ∷ bar
unfolding show_stack
show_anonymous = refl

-- The lines `foo;bar 44` and `<local>;bar 3`, in the order of their stacks.
flamegraph_lines :
    (calculate_flamegraph (map ok three_durations)).0
    ≡ (b'<' ∷ b'l' ∷ b'o' ∷ b'c' ∷ b'a' ∷ b'l' ∷ b'>' ∷ b';' ∷ bar)
      ++ (b' ' ∷ b'3' ∷ 10 ∷ foo)
      ++ (b';' ∷ bar)
      ++ (b' ' ∷ b'4' ∷ b'4' ∷ 10 ∷ [])
unfolding calculate_flamegraph compare_stack compare_list compare_option display_local show_number
flamegraph_lines = refl

-- A return behind the last call takes the base call off; the next one finds none.
surplus_returns :
    calculate_durations (map ok (event return foo_bar 5 ∷ event return foo_bar 6 ∷ []))
    ≡ ok (record { stack = record { frames = none ∷ [] }; time = 0 }) ∷ err missing_call_record ∷ []
unfolding calculate_durations sub_time
surplus_returns = refl

parse_errors :
    (parse_procedure (b'c' ∷ b'a' ∷ b'l' ∷ b'l' ∷ 9 ∷ foo) ≡ err missing_time)
    × (parse_procedure (foo ++ (9 ∷ foo)) ≡ err unknown_record_type)
unfolding parse_procedure split parse_operation parse_stack
parse_errors = (refl, refl)

read_records-write_records_example :
    read_records procedure_record (write_records procedure_record (map ok two_records)).0
    ≡ map ok two_records
read_records-write_records_example = read_records-write_records two_records (ground arith)

show_stack-parse_stack_example :
    (s : Stack) × (parse_stack (foo ++ (b';' ∷ [])) ≡ ok s) × (show_stack s ≡ foo ++ (b';' ∷ []))
show_stack-parse_stack_example = show_stack-parse_stack (foo ++ (b';' ∷ []))

collapse_frames-runs_example :
    (runs : List Run) × IsMaximal runs
    × (expand runs ≡ repeated.frames)
    × (map run_frame runs ≡ (collapse_frames repeated).frames)
collapse_frames-runs_example = collapse_frames-runs repeated

calculate_durations-trace_example :
    calculate_durations (map ok (event call anonymous_bar 0 ∷ trace busy))
    ≡ map ok (durations anonymous_bar 0 busy)
calculate_durations-trace_example = calculate_durations-trace anonymous_bar 0 busy (omega arith)

calculate_flamegraph-totals_example :
    (m : TimeMap) × (calculate_flamegraph (map ok three_durations) ≡ (write_times m, ok tt))
    × IsSorted m
    × ((s : Stack) → get_time s m ≡ total_time s three_durations)
calculate_flamegraph-totals_example = calculate_flamegraph-totals three_durations (omega arith)

analyze-analyze_example :
    (m : TimeMap) × (analyze flamegraph (analyze duration (profile anonymous_bar 0 busy)).0
      ≡ (write_times m, ok tt))
    × IsSorted m
    × ((s : Stack) → get_time s m ≡ total_time s (durations anonymous_bar 0 busy))
analyze-analyze_example =
    analyze-analyze anonymous_bar 0 busy (omega arith) (ground arith) (omega arith)

-- The string `f` at 4, the symbol with it at 8, a call of the symbol at 10, and a frame at 14 that was
-- made there, on the empty stack.
abbrev framed : Memory
framed = record {
  code = 0;
  stack = 1835008;
  false_cons = 262144;
  register = 0;
  allocation_index = 16;
  space = false;
  heap =
      1 ∷ 1 ∷ 0 ∷ 0 ∷ 205 ∷ 0 ∷ 3 ∷ 524288 ∷ 3 ∷ 786432 ∷ 1048576 ∷ 0 ∷ 1310720 ∷ 0 ∷ 1572864 ∷ 2
      ∷ 0 ∷ 0 ∷ 0 ∷ 0 ∷ 0 ∷ 0 ∷ 0 ∷ 0 ∷ 0 ∷ 0 ∷ 0 ∷ 0 ∷ 0 ∷ 0 ∷ 0 ∷ 0 ∷ [];
}

null-framed : null framed ≡ VmMemory.ok 0 framed
unfolding null car get Cons.index
null-framed = refl

f-IsList : IsList framed 0 524288 (205 ∷ [])
unfolding Cons.eq car cdr get Cons.index
f-IsList = next {rest = 0} refl refl refl (end refl)

f-IsNamed : IsNamed framed 0 9 1310720 (map character (205 ∷ []))
unfolding car cdr get Cons.index Value.to_cons
f-IsNamed = named {operand = 1048576} {name = 786432} refl refl refl refl f-IsList (omega arith)

framed-IsStack : IsStack framed 0 9 1835008 (map character (205 ∷ []) ∷ []) 1
unfolding car cdr get Cons.index Cons.eq Value.tag
framed-IsStack =
    frame {slot = 2} {pair = 1572864} refl refl refl refl refl f-IsNamed refl (bottom refl)

character-f : character 205 ≡ b'f'
unfolding character to_i64
character-f = refl

profile_call-IsStack_example : profile_call 9 42 1310720 true [] framed ≡ (
  show_procedure (
        record_of return_call
          (call_names (map character (205 ∷ [])) (map character (205 ∷ []) ∷ []))
          42)
      ++ 10 ∷ [],
  VmMemory.ok tt framed,
)
profile_call-IsStack_example =
    profile_call-IsStack framed 0 9 42 true [] null-framed f-IsNamed framed-IsStack (omega arith)
