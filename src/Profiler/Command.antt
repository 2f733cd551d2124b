-- ===== src/Profiler/Command.antt =====
-- cmd/profile/src/main.rs: the analyses of a profile, each from the standard input to the standard
-- output. A command ends with what it wrote and its result.
pub mod Pipeline
use wispy_vm.Profiler.Duration.{calculate_durations}
use wispy_vm.Profiler.Flamegraph.{calculate_flamegraph}
use wispy_vm.Profiler.Record.{procedure_record, duration_record, duration_stacked}
use wispy_vm.Profiler.Stream.{read_records, write_records, collapse_stacks, reverse_stacks}
use wispy_vm.Profiler.{Chars, Result}

-- `enum Analysis`
pub data Analysis : Type 0 where
  duration stack_collapse stack_reverse flamegraph : Analysis

-- The branch of `main` for `Analyze`.
unfoldable pub analyze : Analysis → Chars → Chars × Result (Unit {0})
analyze duration input =
    write_records duration_record (calculate_durations (read_records procedure_record input))
analyze stack_collapse input =
    write_records duration_record
      (collapse_stacks duration_stacked (read_records duration_record input))
analyze stack_reverse input =
    write_records duration_record
      (reverse_stacks duration_stacked (read_records duration_record input))
analyze flamegraph input = calculate_flamegraph (read_records duration_record input)
