-- ===== src/Profiler/StackProfiler.antt =====
-- profiler/src/stack_profiler.rs: the profiler of the virtual machine. The state is the text that the
-- writer was given, and outlives an error; the clock is the time that an operation takes. `fuel` bounds
-- the loops down the stack and down strings.
pub mod Lines
use wispy_vm.Prelude.{
  ℕ, zero, suc, ◌%◌, ◌^◌, ◌≤◌, Bool, true, false, ◌&&◌, ◌||◌, Option, none, some, List, [], ◌∷◌,
  ◌++◌, ◌==◌, if◌then◌else◌, ltb, leb,
}
use wispy_vm.Profiler.Record.{ProcedureOperation, call, return, return_call, show_operation}
use wispy_vm.Profiler.Text.{show_number}
use wispy_vm.Profiler.{Chars, column_separator, frame_separator}
use wispy_vm.Vm.Cons
use wispy_vm.Vm.Cons.{Cons}
use wispy_vm.Profiler.Writer.{Run, run_then, lift, ◌>>=◌, ◌>>◌}
use wispy_vm.Vm.Memory.{ok, stuck, car, cdr, gets, pure}
use wispy_vm.Vm.Memory.Stack.{null}
use wispy_vm.Vm.Tags.{frame_slot}
use wispy_vm.Vm.Value
use wispy_vm.Vm.Value.{Value}
use wispy_vm.Vm.ValueInner.{to_i64}

abbrev pub write : Chars → Run Chars (Unit {0})
write text written m = (written ++ text, ok tt m)

-- `char::from_u32(…).unwrap_or('\u{fffd}')`: surrogates and what lies behind the last code point are
-- no characters.
unfoldable pub character : Value → ℕ
character v =
    let code = to_i64 v % 2 ^ 32 in
    if ltb code 55296 || (leb 57344 code && ltb code 1114112) then code else 65533

-- The `while` loop of `write_procedure`.
unfoldable pub write_string : ℕ → Cons → Run Chars (Unit {0})
write_string zero string written m = (written, stuck)
write_string (suc fuel) string written m = run_then (lift null written m) (λ nil written' m'.
    let more =
      (do
        v ← lift (car string)
        write (character v ∷ [])
        rest ← lift (cdr string)
        write_string fuel rest)
        written' m' in
    if Cons.eq string nil then (written', ok tt m') else more)

unfoldable pub write_symbol : ℕ → Cons → Run Chars (Unit {0})
write_symbol fuel symbol = do
  name ← lift (cdr symbol)
  string ← lift (cdr name)
  write_string fuel string

-- An operand that is no cons has no name.
unfoldable pub write_operand : ℕ → Option Cons → Run Chars (Unit {0})
unfolding write_symbol
write_operand fuel none = lift (pure tt)
write_operand fuel (some symbol) = write_symbol fuel symbol

unfoldable pub write_procedure : ℕ → Cons → Run Chars (Unit {0})
unfolding write_operand
write_procedure fuel code = do operand ← lift (car code); write_operand fuel (Value.to_cons operand)

-- The part of the loop of `write_stack` at a frame; it gives the stack below.
unfoldable pub write_frame : ℕ → Bool → Cons → Run Chars Cons
write_frame fuel first stack = do
  write (if first then [] else frame_separator ∷ [])
  pair ← lift (car stack)
  code ← lift (car pair)
  write_procedure fuel code
  pair' ← lift (car stack)
  lift (cdr pair')

-- The `while` loop of `write_stack`.
unfoldable pub write_frames : ℕ → ℕ → Bool → Cons → Run Chars (Unit {0})
write_frames fuel zero first stack written m = (written, stuck)
write_frames fuel (suc rounds) first stack written m =
    run_then (lift null written m) (λ nil written' m'.
      let at_frame =
        (do below ← write_frame fuel first stack; write_frames fuel rounds false below) written'
          m' in
      let at_value =
        (do below ← lift (cdr stack); write_frames fuel rounds first below) written' m' in
      let more =
        run_then (lift (cdr stack) written' m')
          (λ slot written'' m''. if Value.tag slot == frame_slot then at_frame else at_value) in
      if Cons.eq stack nil then (written', ok tt m') else more)

unfoldable pub write_stack : ℕ → Run Chars (Unit {0})
write_stack fuel = do stack ← lift (gets (λ m. m.stack)); write_frames fuel fuel true stack

-- `write_time`, at a number of nanoseconds since the start.
unfoldable pub write_time : ℕ → Run Chars (Unit {0})
write_time time = write (show_number time ++ (10 ∷ []))

unfoldable pub profile_call : ℕ → ℕ → Cons → Bool → Run Chars (Unit {0})
profile_call fuel time call_code returns = do
  write (show_operation (if returns then return_call else call))
  write (column_separator ∷ [])
  write_procedure fuel call_code
  write (frame_separator ∷ [])
  write_stack fuel
  write (column_separator ∷ [])
  write_time time

unfoldable pub profile_return : ℕ → ℕ → Run Chars (Unit {0})
profile_return fuel time = do
  write (show_operation return)
  write (column_separator ∷ [])
  write_stack fuel
  write (column_separator ∷ [])
  write_time time

unfoldable pub profile_event : ℕ → Chars → Run Chars (Unit {0})
profile_event time name = do write name; write (column_separator ∷ []); write_time time
