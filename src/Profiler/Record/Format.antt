-- ===== src/Profiler/Record/Format.antt =====
-- The text of records is read back.
use wispy_vm.Prelude.{ℕ, ◌^◌, ◌<◌, ◌≡◌, refl, ◌≢◌, true, [], ◌∷◌, ◌++◌, All, arith}
use wispy_vm.Profiler.{ok, column_separator, frame_separator}
use wispy_vm.Profiler.Record.{
  ProcedureOperation, call, return, return_call, show_operation, parse_operation, parse_time,
  DurationRecord, parse_duration, show_duration, ProcedureRecord, parse_procedure, show_procedure,
}
use wispy_vm.Profiler.Stack.Format.{IsPrintable, parse_stack-show_stack, display_frames-Avoids}
use wispy_vm.Profiler.Stack.{Stack, Frame, unwrap_or, show_stack}
use wispy_vm.Profiler.Text.Number.{show_number-Avoids, parse_number-show_number}
use wispy_vm.Profiler.Text.Split.{Avoids, split-piece, split-last}
use wispy_vm.Profiler.Text.{show_number}

-- No name of the stack holds the character.
abbrev pub NamesAvoid : ℕ → Stack → Type 0
NamesAvoid c s = All (λ (f : Frame). Avoids c (unwrap_or [] f)) s.frames

-- The stack is determined by its text, and its text by the columns of a record.
abbrev pub IsColumn : Stack → Type 0
IsColumn s = IsPrintable s × NamesAvoid column_separator s

pub show_stack-Avoids :
    (c : ℕ) (s : Stack) → c ≢ frame_separator → NamesAvoid c s → Avoids c (show_stack s)
unfolding show_stack
show_stack-Avoids c s n h = display_frames-Avoids c true s.frames n h

parse_operation-show_operation :
    (o : ProcedureOperation) → parse_operation (show_operation o) ≡ ok o
unfolding parse_operation show_operation
parse_operation-show_operation call = refl
parse_operation-show_operation return = refl
parse_operation-show_operation return_call = refl

pub show_operation-Avoids : (c : ℕ) (o : ProcedureOperation) → c < 14 → Avoids c (show_operation o)
unfolding show_operation
show_operation-Avoids c call h = ground arith
show_operation-Avoids c return h = ground arith
show_operation-Avoids c return_call h = ground arith

parse_time-show_number : (n : ℕ) → n < 2 ^ 128 → parse_time (show_number n) ≡ ok n
unfolding parse_time
parse_time-show_number n h = rw (parse_number-show_number n h, parse_time) refl

stack-Avoids : (s : Stack) → IsColumn s → Avoids column_separator (show_stack s)
stack-Avoids s h = show_stack-Avoids column_separator s (λ e. omega arith) h.1

-- A duration record is read back from its text, if its stack is and no name holds a tab.
pub parse_duration-show_duration :
    (r : DurationRecord)
    → IsColumn r.stack
    → r.time < 2 ^ 128
    → parse_duration (show_duration r) ≡ ok r
unfolding parse_duration show_duration
parse_duration-show_duration r h k =
    rw
      (
        split-piece column_separator (show_stack r.stack) (show_number r.time)
            (stack-Avoids r.stack h),
        split-last column_separator (show_number r.time)
            (show_number-Avoids 9 r.time (omega arith)),
        parse_stack-show_stack r.stack h.0,
        parse_time-show_number r.time k,
      )
      refl

-- A procedure record is read back from its text, if its stack is and no name holds a tab.
pub parse_procedure-show_procedure :
    (r : ProcedureRecord)
    → IsColumn r.stack
    → r.time < 2 ^ 128
    → parse_procedure (show_procedure r) ≡ ok r
unfolding parse_procedure show_procedure
parse_procedure-show_procedure r h k =
    rw
      (
        split-piece column_separator (show_operation r.operation)
            (show_stack r.stack ++ (column_separator ∷ show_number r.time))
            (show_operation-Avoids 9 r.operation (omega arith)),
        split-piece column_separator (show_stack r.stack) (show_number r.time)
            (stack-Avoids r.stack h),
        split-last column_separator (show_number r.time)
            (show_number-Avoids 9 r.time (omega arith)),
        parse_operation-show_operation r.operation,
        parse_stack-show_stack r.stack h.0,
        parse_time-show_number r.time k,
      )
      refl
