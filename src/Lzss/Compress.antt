-- ===== src/Lzss/Compress.antt =====
-- lzss/src/compress.rs: the iterator that looks for the longest match in the window.
pub mod View
pub mod Peek
pub mod Search
pub mod Encode
use wispy_vm.Prelude.{
  ℕ, zero, suc, ◌+◌, ◌-◌, ◌*◌, ◌%◌, Bool, true, false, ◌&&◌, Option, none, some, List, [], ◌∷◌, ltb,
  ◌==◌, if◌then◌else◌,
}
use wispy_vm.Lzss.{max_length}
use wispy_vm.Lzss.RingBuffer.{RingBuffer, new, push, index}

abbrev pub min_length : ℕ
min_length = 2

-- `struct LzssCompressionIterator`; `pending` is its field `next`.
pub record Compressor : Type 0 where
  pub iterator : List ℕ
  pub buffer : RingBuffer
  pub ahead : ℕ
  pub pending : Option ℕ

abbrev pub same_byte : Option ℕ → ℕ → Bool
same_byte none y = false
same_byte (some x) y = x == y

-- `max_by_key` keeps the later of two maxima, so the nearer offset of equal lengths.
abbrev pub later_max : ℕ × ℕ → ℕ × ℕ → ℕ × ℕ
later_max best found = if ltb found.1 best.1 then best else found

module _ (b : ℕ) where
  unfoldable pub start : List ℕ → Compressor
  start bytes = record { iterator = bytes; buffer = new b; ahead = 0; pending = none }

  -- One `iterator.next()` whose byte enters the buffer.
  unfoldable pub next_byte : Compressor → Option (ℕ × Compressor)
  next_byte s =
      if ltb 0 s.ahead
      then some (index b s.buffer (b - s.ahead), record s { ahead = s.ahead - 1 })
      else elim s.iterator [
        | [] ↦ none
        | x ∷ it ↦ some (x, record s { iterator = it; buffer = push b s.buffer x })
      ]

  -- The loop of `peek`: `rounds` more bytes are read ahead, and the last of them is the answer.
  unfoldable pub peek_loop : List ℕ → ℕ → RingBuffer → ℕ → ℕ → Option ℕ × List ℕ × RingBuffer × ℕ
  peek_loop it zero buffer ahead x = (some x, it, buffer, ahead)
  peek_loop [] (suc rounds) buffer ahead x = (none, [], buffer, ahead)
  peek_loop (y ∷ it) (suc rounds) buffer ahead x =
      peek_loop it rounds (push b buffer y) (ahead + 1) y

  unfoldable pub peek : Compressor → ℕ → Option ℕ × Compressor
  unfolding peek_loop
  peek s i =
      if ltb i s.ahead
      then (some (index b s.buffer (b - s.ahead + i)), s)
      else (let (x, it, buffer, ahead) =
            peek_loop s.iterator (i + 1 - s.ahead) s.buffer s.ahead 0 in
          (x, record s { iterator = it; buffer = buffer; ahead = ahead }))

  -- The test of the `while` loop behind `j < MAX_LENGTH`: `peek` runs first, and then the window
  -- is read with what `peek` left.
  unfoldable pub agrees : Compressor → (i j : ℕ) → Bool × Compressor
  unfolding peek
  agrees s i j =
      let (x, s') = peek s j in (same_byte x (index b s'.buffer (2 * b - s'.ahead - 1 - i + j)), s')

  -- The `while` loop for the window offset `i`, from the length `j` on; `fuel` bounds the rounds.
  unfoldable pub match_loop : ℕ → Compressor → (i j : ℕ) → ℕ × Compressor
  match_loop zero s i j = (j, s)
  match_loop (suc fuel) s i j =
      let (same, s') = agrees s i j in
      let more = match_loop fuel s' i (suc j) in
      if ltb j max_length then (if same then more else (j, s')) else (j, s)

  -- `(0..window).rev().map(..)`, folded by `max_by_key`. The first item has nothing to be
  -- compared with.
  unfoldable pub search_from : ℕ → ℕ × ℕ → Compressor → (ℕ × ℕ) × Compressor
  search_from zero best s = (best, s)
  search_from (suc i) best s =
      let (j, s') = match_loop (max_length + 1) s i 0 in search_from i (later_max best (i, j)) s'

  unfoldable pub search_window : ℕ → Compressor → (ℕ × ℕ) × Compressor
  search_window zero s = ((0, 0), s)
  search_window (suc i) s =
      let (j, s') = match_loop (max_length + 1) s i 0 in search_from i (i, j) s'

  -- `WINDOW_SIZE` is `B - MAX_LENGTH`.
  unfoldable pub longest_match : Compressor → (ℕ × ℕ) × Compressor
  longest_match s = search_window (b - max_length) s

  -- The branch of `next` with no pending byte, after the search.
  unfoldable pub emit : ℕ → ℕ → Compressor → Option (ℕ × Compressor)
  emit n m s =
      if ltb min_length m
      then some ((m - 1) * 2 % 256 + 1, record s { ahead = s.ahead - m; pending = some (n % 256) })
      else elim (next_byte s) [ none ↦ none | some (x, s') ↦ some (x * 2 % 256, s') ]

  unfoldable pub next : Compressor → Option (ℕ × Compressor)
  next s = elim s.pending [
    | some x ↦ some (x, record s { pending = none })
    | none ↦ let ((n, m), s') = longest_match s in emit n m s'
  ]

  -- `collect`, for a number of calls of `next`; `none` is too few calls.
  unfoldable pub collect : ℕ → Compressor → Option (List ℕ)
  collect zero s = none
  collect (suc fuel) s = elim (next s) [
    | none ↦ some []
    | some (x, s') ↦ elim (collect fuel s') [ none ↦ none | some xs ↦ some (x ∷ xs) ]
  ]
