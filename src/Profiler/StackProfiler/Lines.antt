-- ===== src/Profiler/StackProfiler/Lines.antt =====
-- The lines that the profiler of the virtual machine writes are the text of records.
use wispy_vm.Prelude.{
  ℕ, zero, suc, ◌<◌, ◌≡◌, refl, ap, Bool, true, false, none, some, List, [], ◌∷◌, ◌++◌, map, ◌==◌,
  length, arith, append_assoc, append-nil, if◌then◌else◌,
}
use wispy_vm.Native.List.Search.{IsList, end, next}
use wispy_vm.Profiler.Record.{
  ProcedureOperation, call, return, return_call, ProcedureRecord, show_operation, show_procedure,
}
use wispy_vm.Profiler.Stack.{parse_frame, display_frames, show_stack}
use wispy_vm.Profiler.Stack.Format.{unwrap_or-parse_frame}
use wispy_vm.Profiler.StackProfiler.{
  character, write_string, write_procedure, write_frame, write_frames, write_stack, write_time,
  profile_call, profile_return,
}
use wispy_vm.Profiler.Text.{show_number}
use wispy_vm.Profiler.{Chars, column_separator, frame_separator}
use wispy_vm.Vm.Cons
use wispy_vm.Vm.Cons.{Cons}
use wispy_vm.Vm.Memory.{Memory, ok, car, cdr}
use wispy_vm.Vm.Memory.Stack.{null}
use wispy_vm.Vm.Tags.{frame_slot}
use wispy_vm.Vm.Value
use wispy_vm.Vm.Value.{Value}

write_string-IsList :
    (m : Memory) (nil : Cons)
    → null m ≡ ok nil m
    → (fuel : ℕ) {string : Cons} {vs : List Value} (written : Chars) → IsList m nil string vs
    → length vs < fuel
    → write_string fuel string written m ≡ (written ++ map character vs, ok tt m)
unfolding write_string
write_string-IsList m nil at zero written l h = absurd (omega arith)
write_string-IsList m nil at (suc fuel) written (end e) h = rw (at, e, append-nil written) refl
write_string-IsList m nil at (suc fuel) written (next {v} e a d l) h =
    rw
      (at, e, a, d, write_string-IsList m nil at fuel (written ++ character v ∷ []) l (omega arith))
      (rw (append_assoc written) refl)

-- The text of the frames, with a separator before each but the first of the line.
abbrev frames_text : Bool → List Chars → Chars
frames_text first [] = []
frames_text first (name ∷ names) =
    (if first then [] else frame_separator ∷ []) ++ (name ++ frames_text false names)

display_frames-frames_text :
    (first : Bool) (names : List Chars)
    → display_frames first [] (map parse_frame names) ≡ frames_text first names
unfolding display_frames
display_frames-frames_text first [] = refl
display_frames-frames_text first (name ∷ names) =
    rw (unwrap_or-parse_frame name, display_frames-frames_text false names) refl

-- The record of the stack of frames that were called under the names.
abbrev pub record_of : ProcedureOperation → List Chars → ℕ → ProcedureRecord
record_of operation names time = record {
  operation = operation;
  stack = record { frames = map parse_frame names };
  time = time;
}

show_procedure-record_of :
    (operation : ProcedureOperation) (names : List Chars) (time : ℕ)
    → show_procedure (record_of operation names time)
      ≡ show_operation operation
        ++ (column_separator ∷ (frames_text true names ++ (column_separator ∷ show_number time)))
unfolding show_procedure show_stack
show_procedure-record_of operation names time = rw (display_frames-frames_text true names) refl

-- The names of a call: that of the callee, then those of the frames. A call on the empty stack has a
-- frame without a name behind it.
abbrev pub call_names : Chars → List Chars → List Chars
call_names name [] = name ∷ [] ∷ []
call_names name (caller ∷ names) = name ∷ caller ∷ names

frames_text-call_names :
    (name : Chars) (names : List Chars)
    → frames_text true (call_names name names) ≡ name ++ (frame_separator ∷ frames_text true names)
frames_text-call_names name [] = refl
frames_text-call_names name (caller ∷ names) = refl

module _ (m : Memory) (nil : Cons) (fuel : ℕ) where
  -- The operand of a call is no symbol and gives no name, or is one and gives the characters of its
  -- string.
  pub data IsNamed : Cons → Chars → Type 0 where
    anonymous :
        {code : Cons} {operand : Value}
        → car code m ≡ ok operand m
        → Value.to_cons operand ≡ none
        → IsNamed code []
    named :
        {code symbol : Cons} {operand name string : Value} {vs : List Value}
        → car code m ≡ ok operand m
        → Value.to_cons operand ≡ some symbol
        → cdr symbol m ≡ ok name m
        → cdr name m ≡ ok string m
        → IsList m nil string vs
        → length vs < fuel
        → IsNamed code (map character vs)

  -- From `stack` on the memory holds a stack of `n` slots, whose frames were called under the names.
  pub data IsStack : Cons → List Chars → ℕ → Type 0 where
    bottom : {stack : Cons} → Cons.eq stack nil ≡ true → IsStack stack [] 0
    value :
        {stack below : Cons} {names : List Chars} {n : ℕ}
        → Cons.eq stack nil ≡ false
        → cdr stack m ≡ ok below m
        → (Value.tag below == frame_slot) ≡ false
        → IsStack below names n
        → IsStack stack names (suc n)
    frame :
        {stack slot pair code below : Cons} {name : Chars} {names : List Chars} {n : ℕ}
        → Cons.eq stack nil ≡ false
        → cdr stack m ≡ ok slot m
        → (Value.tag slot == frame_slot) ≡ true
        → car stack m ≡ ok pair m
        → car pair m ≡ ok code m
        → IsNamed code name
        → cdr pair m ≡ ok below m
        → IsStack below names n
        → IsStack stack (name ∷ names) (suc n)

  write_procedure-IsNamed :
      {code : Cons} {name : Chars} (written : Chars)
      → null m ≡ ok nil m
      → IsNamed code name
      → write_procedure fuel code written m ≡ (written ++ name, ok tt m)
  unfolding write_procedure
  write_procedure-IsNamed written at (anonymous a o) = rw (a, o, append-nil written) refl
  write_procedure-IsNamed written at (named a o d d' l h) =
      rw (a, o, d, d') (write_string-IsList m nil at fuel written l h)

  write_frame-IsNamed :
      (stack pair code below : Cons) {name : Chars} (first : Bool) (written : Chars)
      → null m ≡ ok nil m
      → car stack m ≡ ok pair m
      → car pair m ≡ ok code m
      → IsNamed code name
      → cdr pair m ≡ ok below m
      → write_frame fuel first stack written m
        ≡ (written ++ ((if first then [] else frame_separator ∷ []) ++ name), ok below m)
  unfolding write_frame
  write_frame-IsNamed stack pair code below first written at a c n d =
      rw
        (
          a,
          c,
          write_procedure-IsNamed (written ++ (if first then [] else frame_separator ∷ [])) at n,
          a,
          d,
        )
        (rw (append_assoc written) refl)

  write_frames-IsStack :
      (rounds : ℕ) (first : Bool) {stack : Cons} {names : List Chars} {n : ℕ} (written : Chars)
      → null m ≡ ok nil m
      → IsStack stack names n
      → n < rounds
      → write_frames fuel rounds first stack written m
        ≡ (written ++ frames_text first names, ok tt m)
  unfolding write_frames
  write_frames-IsStack zero first written at s h = absurd (omega arith)
  write_frames-IsStack (suc rounds) first written at (bottom e) h =
      rw (at, e, append-nil written) refl
  write_frames-IsStack (suc rounds) first written at (value e d t s) h =
      rw (at, e, d, t) (write_frames-IsStack rounds first written at s (omega arith))
  write_frames-IsStack (suc rounds) first written at
        (frame {stack} {slot} {pair} {code} {below} {name} {names} e d t a c n d' s) h =
      rw
        (
          at,
          e,
          d,
          t,
          write_frame-IsNamed stack pair code below first written at a c n d',
          write_frames-IsStack rounds false _ at s (omega arith),
          append_assoc written,
        )
        (ap (λ r. (written ++ r, ok tt m))
          (append_assoc (if first then [] else frame_separator ∷ []) name
            (frames_text false names)))

  -- At a return the profiler writes the line of the record of the stack, with fuel for one round more
  -- than the stack has slots.
  pub profile_return-IsStack :
      {names : List Chars} {n : ℕ} (time : ℕ) (written : Chars)
      → null m ≡ ok nil m
      → IsStack m.stack names n
      → n < fuel
      → profile_return fuel time written m
        ≡ (written ++ (show_procedure (record_of return names time) ++ 10 ∷ []), ok tt m)
  unfolding profile_return write_stack write_time
  profile_return-IsStack {names} time written at s h =
      rw (write_frames-IsStack fuel true _ at s h, show_procedure-record_of return names time)
        (simp (append_assoc, write_time))

  -- At a call the profiler writes the line of the record of the callee and the stack, with fuel for one
  -- round more than the stack has slots.
  pub profile_call-IsStack :
      {code : Cons} {name : Chars} {names : List Chars} {n : ℕ} (time : ℕ) (returns : Bool)
      (written : Chars)
      → null m ≡ ok nil m
      → IsNamed code name
      → IsStack m.stack names n
      → n < fuel
      → profile_call fuel time code returns written m ≡ (
        written
            ++ (show_procedure
                  (record_of (if returns then return_call else call) (call_names name names) time)
                ++ 10 ∷ []),
        ok tt m,
      )
  unfolding profile_call write_stack write_time
  profile_call-IsStack {code} {name} {names} time returns written at c s h =
      rw
        (
          write_procedure-IsNamed _ at c,
          write_frames-IsStack fuel true _ at s h,
          show_procedure-record_of (if returns then return_call else call) (call_names name names)
              time,
          frames_text-call_names name names,
        )
        (simp (append_assoc, write_time))
