-- ===== src/Profiler/Command/Pipeline.antt =====
-- The analyses of cmd/profile/src/main.rs one after another, each on what the one before it wrote.
use wispy_vm.Prelude.{ℕ, ◌^◌, ◌<◌, ◌≡◌, ap, ◌∙◌, ◌∷◌, map, All, All-append, All-split, arith}
use wispy_vm.Profiler.Command.{duration, flamegraph, analyze}
use wispy_vm.Profiler.Duration.{calculate_durations}
use wispy_vm.Profiler.Duration.Trace.{
  Activity, returns, calls, tail_calls, event, trace, durations, end_time, IsTimed, IsTimed-end,
  IsTimed-weaken, calculate_durations-trace,
}
use wispy_vm.Profiler.Flamegraph.Entries.{IsSorted}
use wispy_vm.Profiler.Flamegraph.Totals.{all_time, total_time, calculate_flamegraph-totals}
use wispy_vm.Profiler.Flamegraph.{TimeMap, get_time, write_times, calculate_flamegraph}
use wispy_vm.Profiler.Record.{call, procedure_record, duration_record}
use wispy_vm.Profiler.Stack.{Stack}
use wispy_vm.Profiler.Stream.RoundTrip.{
  IsProcedureLine, IsDurationLine, read_records-write_records, read_durations-write_durations,
}
use wispy_vm.Profiler.Stream.{read_records, write_records}
use wispy_vm.Profiler.{Chars, ok}

-- The durations can be written and read back if the events of the trace can.
durations-IsDurationLine :
    (s : Stack) (t : ℕ) (a : Activity)
    → IsTimed t a
    → IsProcedureLine (event call s t)
    → All IsProcedureLine (trace a)
    → All IsDurationLine (durations s t a)
durations-IsDurationLine s t (returns s' t') timed h lines = ((h.0, h.1, omega (arith, timed)), tt)
durations-IsDurationLine s t (calls s' t' callee rest) timed h lines =
    let ends = IsTimed-end t' callee timed.1 in
    let parts = All-split IsProcedureLine (trace callee) (trace rest) lines.1 in
    All-append IsDurationLine (durations s' t' callee) (durations s t rest)
      (durations-IsDurationLine s' t' callee timed.1 lines.0 parts.0)
      (durations-IsDurationLine s t rest
        (IsTimed-weaken t (end_time callee) rest (omega (arith, timed.0, ends.0)) timed.2) h
        parts.1)
durations-IsDurationLine s t (tail_calls s' t' callee) timed h lines = (
  (h.0, h.1, omega (arith, lines.0.2)),
  durations-IsDurationLine s' t' callee timed.1 lines.0 lines.1,
)

-- The text of a profile that starts with the call of a procedure.
abbrev pub profile : Stack → ℕ → Activity → Chars
profile s t a = (write_records procedure_record (map ok (event call s t ∷ trace a))).0

-- The command for durations, on the profile of a call that returns, writes the durations of its calls.
pub analyze-profile :
    (s : Stack) (t : ℕ) (a : Activity)
    → IsTimed t a
    → All IsProcedureLine (event call s t ∷ trace a)
    → analyze duration (profile s t a) ≡ write_records duration_record (map ok (durations s t a))
unfolding analyze
analyze-profile s t a timed lines =
    ap (λ items. write_records duration_record (calculate_durations items))
      (read_records-write_records (event call s t ∷ trace a) lines)
    ∙ ap (write_records duration_record) (calculate_durations-trace s t a timed)

-- The profile of a call whose time does not run backwards, and that ends when the call returned: if its
-- records can be read back from their text, and the durations of its calls add up to less than 2 ^ 128,
-- the command for flame graphs on what the command for durations writes ends without an error. It
-- writes a map whose keys are the stacks of the calls, each once and in their order, with the sum of
-- their durations.
pub analyze-analyze :
    (s : Stack) (t : ℕ) (a : Activity)
    → IsTimed t a
    → All IsProcedureLine (event call s t ∷ trace a)
    → all_time (durations s t a) < 2 ^ 128
    → (m : TimeMap) × (analyze flamegraph (analyze duration (profile s t a)).0
        ≡ (write_times m, ok tt))
      × IsSorted m
      × ((s' : Stack) → get_time s' m ≡ total_time s' (durations s t a))
unfolding analyze
analyze-analyze s t a timed lines small =
    let written = analyze-profile s t a timed lines in
    let read =
      read_durations-write_durations (durations s t a)
        (durations-IsDurationLine s t a timed lines.0 lines.1) in
    let (m, run, sorted, totals) = calculate_flamegraph-totals (durations s t a) small in
    (
      m,
      ap (λ r. calculate_flamegraph (read_records duration_record r.0)) written
          ∙ ap calculate_flamegraph read
          ∙ run,
      sorted,
      totals,
    )
