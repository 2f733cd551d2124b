-- ===== src/Profiler/Record.antt =====
-- profiler/src/record: the records of a profile, printed and parsed.
pub mod Format
use wispy_vm.Prelude.{ℕ, Option, List, [], ◌∷◌, ◌++◌, if◌then◌else◌, get_elem?}
use wispy_vm.Profiler.{
  Chars, Error, Result, ok, err, ok_or, ◌>>=◌, column_separator, missing_procedure_operation,
  missing_stack, missing_time, parse_int, unknown_record_type,
}
use wispy_vm.Profiler.Stack.{Stack, parse_stack, show_stack, same_chars}
use wispy_vm.Profiler.Text.{split, show_number, parse_number, Parsed, number, invalid}

-- `trait Record: Display + FromStr` and `trait StackedRecord`
pub record Record (R : Type 0) : Type 0 where
  pub show : R → Chars
  pub parse : Chars → Result R

pub record StackedRecord (R : Type 0) : Type 0 where
  pub stack : R → Stack
  pub replace_stack : Stack → R → R

-- `enum ProcedureOperation`
pub data ProcedureOperation : Type 0 where
  call return return_call : ProcedureOperation

abbrev pub call_chars : Chars
call_chars = b'c' ∷ b'a' ∷ b'l' ∷ b'l' ∷ []

abbrev pub return_chars : Chars
return_chars = b'r' ∷ b'e' ∷ b't' ∷ b'u' ∷ b'r' ∷ b'n' ∷ []

unfoldable pub show_operation : ProcedureOperation → Chars
show_operation call = call_chars
show_operation return = return_chars
show_operation return_call = return_chars ++ (b'_' ∷ call_chars)

unfoldable pub parse_operation : Chars → Result ProcedureOperation
unfolding same_chars
parse_operation text =
    if same_chars text call_chars
    then ok call
    else if same_chars text return_chars
    then ok return
    else if same_chars text (return_chars ++ (b'_' ∷ call_chars))
    then ok return_call
    else err unknown_record_type

-- `?` on the parse of a `u128`.
unfoldable pub parse_time : Chars → Result ℕ
unfolding parse_number
parse_time text = elim (parse_number text) [ number n ↦ ok n | invalid e ↦ err (parse_int e) ]

-- The item at an index of a split, as `iterator.next()` gives it.
abbrev pub column : ℕ → List Chars → Option Chars
column i columns = get_elem? columns i

-- `struct DurationRecord`
pub record DurationRecord : Type 0 where
  pub stack : Stack
  pub time : ℕ

unfoldable pub parse_duration : Chars → Result DurationRecord
parse_duration text = do
  let columns = split column_separator text
  stack_text ← ok_or missing_stack (column 0 columns)
  stack ← parse_stack stack_text
  time_text ← ok_or missing_time (column 1 columns)
  time ← parse_time time_text
  ok (record { stack = stack; time = time })

unfoldable pub show_duration : DurationRecord → Chars
show_duration r = show_stack r.stack ++ (column_separator ∷ show_number r.time)

-- `struct ProcedureRecord`
pub record ProcedureRecord : Type 0 where
  pub operation : ProcedureOperation
  pub stack : Stack
  pub time : ℕ

unfoldable pub parse_procedure : Chars → Result ProcedureRecord
parse_procedure text = do
  let columns = split column_separator text
  operation_text ← ok_or missing_procedure_operation (column 0 columns)
  operation ← parse_operation operation_text
  stack_text ← ok_or missing_stack (column 1 columns)
  stack ← parse_stack stack_text
  time_text ← ok_or missing_time (column 2 columns)
  time ← parse_time time_text
  ok (record { operation = operation; stack = stack; time = time })

unfoldable pub show_procedure : ProcedureRecord → Chars
show_procedure r =
    show_operation r.operation
    ++ (column_separator ∷ (show_stack r.stack ++ (column_separator ∷ show_number r.time)))

abbrev pub duration_record : Record DurationRecord
duration_record = record { show = show_duration; parse = parse_duration }

abbrev pub procedure_record : Record ProcedureRecord
procedure_record = record { show = show_procedure; parse = parse_procedure }

abbrev pub duration_stacked : StackedRecord DurationRecord
duration_stacked = record { stack = λ r. r.stack; replace_stack = λ s r. record r { stack = s } }

abbrev pub procedure_stacked : StackedRecord ProcedureRecord
procedure_stacked = record { stack = λ r. r.stack; replace_stack = λ s r. record r { stack = s } }
