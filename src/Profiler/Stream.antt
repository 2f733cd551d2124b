-- ===== src/Profiler/Stream.antt =====
-- profiler/src/read.rs, write.rs, reverse.rs and collapse.rs: streams of records. An iterator is the
-- list of its items, and a writer the text that it was given; a failure of the reader is an item.
pub mod RoundTrip
use wispy_vm.Prelude.{List, [], ◌∷◌, ◌++◌, map}
use wispy_vm.Profiler.Record.{Record, StackedRecord}
use wispy_vm.Profiler.Stack.{reverse_frames, collapse_frames}
use wispy_vm.Profiler.Text.{lines}
use wispy_vm.Profiler.{Chars, Result, ok, err, ◌>>=◌}

module _ {R : Type 0} (r : Record R) where
  -- An item of `read_records` before `filter_map`: a line that does not parse is no record.
  unfoldable pub read_line : Chars → List (Result R)
  read_line line = elim (r.parse line) [ ok item ↦ ok item ∷ [] | err e ↦ [] ]

  -- `read_records`, over the lines that the reader gives.
  unfoldable pub read_lines : List (Result Chars) → List (Result R)
  unfolding read_line
  read_lines [] = []
  read_lines (ok line ∷ rest) = read_line line ++ read_lines rest
  read_lines (err e ∷ rest) = err e ∷ read_lines rest

  unfoldable pub read_records : Chars → List (Result R)
  unfolding read_lines
  read_records text = read_lines (map ok (lines text))

  -- `write_records`: the text that was written, and the first error.
  unfoldable pub write_records : List (Result R) → Chars × Result (Unit {0})
  write_records [] = ([], ok tt)
  write_records (err e ∷ rest) = ([], err e)
  write_records (ok item ∷ rest) =
      let (text, result) = write_records rest in (r.show item ++ (10 ∷ text), result)

module _ {R : Type 0} (s : StackedRecord R) where
  unfoldable pub reverse_stacks : List (Result R) → List (Result R)
  reverse_stacks records =
      map (λ record'. record' >>= λ item. ok (s.replace_stack (reverse_frames (s.stack item)) item))
        records

  unfoldable pub collapse_stacks : List (Result R) → List (Result R)
  collapse_stacks records =
      map
        (λ record'. record' >>= λ item. ok (s.replace_stack (collapse_frames (s.stack item)) item))
        records
