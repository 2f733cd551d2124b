-- ===== src/Profiler/Stream/RoundTrip.antt =====
-- Records that are written are read back.
use wispy_vm.Prelude.{
  ℕ, ◌^◌, ◌<◌, ◌≡◌, refl, ap, subst, [], ◌∷◌, ◌++◌, List, map, All, arith, append_assoc, ne→==,
}
use wispy_vm.Profiler.Record.Format.{
  NamesAvoid, IsColumn, show_stack-Avoids, show_operation-Avoids, parse_duration-show_duration,
  parse_procedure-show_procedure,
}
use wispy_vm.Profiler.Record.{
  Record, DurationRecord, ProcedureRecord, show_duration, show_procedure, duration_record,
  procedure_record, show_operation,
}
use wispy_vm.Profiler.Stack.{Stack, show_stack}
use wispy_vm.Profiler.Stream.{read_line, read_records, write_records}
use wispy_vm.Profiler.Text.Number.{show_number-Avoids}
use wispy_vm.Profiler.Text.Split.{Avoids, Avoids-append, split-piece, split-cons}
use wispy_vm.Profiler.Text.{lines, trim_return, show_number}
use wispy_vm.Profiler.{Chars, ok, column_separator}

module _ {R : Type 0} (r : Record R) where
  -- The record is read back from its text, which is one line.
  abbrev IsLine : R → Type 0
  IsLine item =
      (r.parse (r.show item) ≡ ok item)
      × Avoids 10 (r.show item)
      × (trim_return (r.show item) ≡ r.show item)

  lines-cons :
      (cs rest : Chars)
      → Avoids 10 cs
      → trim_return cs ≡ cs
      → lines (cs ++ (10 ∷ rest)) ≡ cs ∷ lines rest
  unfolding lines
  lines-cons cs rest h k =
      let (p, ps, q) = split-cons 10 rest in rw (split-piece 10 cs rest h, q, k) refl

  read_line-IsLine : (item : R) → IsLine item → read_line r (r.show item) ≡ ok item ∷ []
  unfolding read_line
  read_line-IsLine item h = rw (h.0, read_line) refl

  read_records-lines :
      (items : List R)
      → All IsLine items
      → read_records r (write_records r (map ok items)).0 ≡ map ok items
  unfolding read_records write_records lines
  read_records-lines [] h = refl
  read_records-lines (item ∷ items) h =
      rw
        (
          lines-cons (r.show item) (write_records r (map ok items)).0 h.0.1 h.0.2,
          read_line-IsLine item h.0,
        )
        (ap (λ rest. ok item ∷ rest) (read_records-lines items h.1))

-- A carriage return is taken off the end only.
trim_return-append :
    (cs : Chars) (c : ℕ) (ds : Chars)
    → Avoids 13 (c ∷ ds)
    → trim_return (cs ++ (c ∷ ds)) ≡ cs ++ (c ∷ ds)
unfolding trim_return
trim_return-append [] c [] h = rw (ne→== c 13 h.0) refl
trim_return-append [] c (d ∷ ds) h = ap (λ r. c ∷ r) (trim_return-append [] d ds h.1)
trim_return-append (b ∷ []) c ds h = ap (λ r. b ∷ r) (trim_return-append [] c ds h)
trim_return-append (a ∷ b ∷ cs) c ds h = ap (λ r. a ∷ r) (trim_return-append (b ∷ cs) c ds h)

trim_return-number :
    (cs : Chars) (n : ℕ)
    → trim_return (cs ++ (column_separator ∷ show_number n))
      ≡ cs ++ (column_separator ∷ show_number n)
trim_return-number cs n =
    trim_return-append cs column_separator (show_number n)
      ((λ e. omega arith), show_number-Avoids 13 n (omega arith))

number-Avoids : (n : ℕ) → Avoids 10 (column_separator ∷ show_number n)
number-Avoids n = ((λ e. omega arith), show_number-Avoids 10 n (omega arith))

stack-Avoids : (s : Stack) → NamesAvoid 10 s → Avoids 10 (show_stack s)
stack-Avoids s h = show_stack-Avoids 10 s (λ e. omega arith) h

-- What a record needs to be read back from a line of its own.
abbrev pub IsDurationLine : DurationRecord → Type 0
IsDurationLine r = IsColumn r.stack × NamesAvoid 10 r.stack × (r.time < 2 ^ 128)

abbrev pub IsProcedureLine : ProcedureRecord → Type 0
IsProcedureLine r = IsColumn r.stack × NamesAvoid 10 r.stack × (r.time < 2 ^ 128)

IsDurationLine-IsLine :
    (rs : List DurationRecord) → All IsDurationLine rs → All (IsLine duration_record) rs
unfolding show_duration
IsDurationLine-IsLine [] h = tt
IsDurationLine-IsLine (r ∷ rs) h = (
  (
    parse_duration-show_duration r h.0.0 h.0.2,
    Avoids-append 10 (show_stack r.stack) _ (stack-Avoids r.stack h.0.1) (number-Avoids r.time),
    trim_return-number (show_stack r.stack) r.time,
  ),
  IsDurationLine-IsLine rs h.1,
)

IsProcedureLine-IsLine :
    (rs : List ProcedureRecord) → All IsProcedureLine rs → All (IsLine procedure_record) rs
unfolding show_procedure
IsProcedureLine-IsLine [] h = tt
IsProcedureLine-IsLine (r ∷ rs) h = (
  (
    parse_procedure-show_procedure r h.0.0 h.0.2,
    Avoids-append 10 (show_operation r.operation) _
        (show_operation-Avoids 10 r.operation (omega arith))
        (
          (λ e. omega arith),
          Avoids-append 10 (show_stack r.stack) _ (stack-Avoids r.stack h.0.1)
              (number-Avoids r.time),
        ),
    subst (λ t. trim_return t ≡ t)
        (append_assoc (show_operation r.operation) (column_separator ∷ show_stack r.stack)
          (column_separator ∷ show_number r.time))
        (trim_return-number (show_operation r.operation ++ (column_separator ∷ show_stack r.stack))
          r.time),
  ),
  IsProcedureLine-IsLine rs h.1,
)

-- Records whose stacks are read back and whose names hold no tab and no line feed are read back from
-- the text that was written for them, each with its operation, stack and time.
pub read_records-write_records :
    (rs : List ProcedureRecord)
    → All IsProcedureLine rs
    → read_records procedure_record (write_records procedure_record (map ok rs)).0 ≡ map ok rs
read_records-write_records rs h =
    read_records-lines procedure_record rs (IsProcedureLine-IsLine rs h)

pub read_durations-write_durations :
    (rs : List DurationRecord)
    → All IsDurationLine rs
    → read_records duration_record (write_records duration_record (map ok rs)).0 ≡ map ok rs
read_durations-write_durations rs h =
    read_records-lines duration_record rs (IsDurationLine-IsLine rs h)
