-- ===== src/Lzss/Decompress.antt =====
-- lzss/src/decompress.rs: the iterator that expands literals and references to the window.
pub mod Decode
pub mod Total
use wispy_vm.Prelude.{
  ℕ, zero, suc, ◌+◌, ◌-◌, ◌/◌, ◌%◌, Bool, true, false, Option, none, some, List, [], ◌∷◌, ltb, ◌==◌,
  if◌then◌else◌,
}
use wispy_vm.Lzss.RingBuffer.{RingBuffer, new, push, index}

-- `struct LzssDecompressionIterator`. The iterator over the compressed bytes is what it has left.
pub record Decompressor : Type 0 where
  pub iterator : List ℕ
  pub buffer : RingBuffer
  pub offset : ℕ
  pub length : ℕ

-- The outcome of one call of `next`: a byte or the end, with the iterator after it, or the panic of
-- `W - 1 - offset` below zero.
pub data Next : Type 0 where
  yield : ℕ → Decompressor → Next
  done : Decompressor → Next
  panic : Next

module _ (w : ℕ) where
  unfoldable pub start : List ℕ → Decompressor
  start bytes = record { iterator = bytes; buffer = new w; offset = 0; length = 0 }

  -- The branch `self.length > 0`: the byte at the distance `offset`, which enters the window again.
  unfoldable pub copy : List ℕ → RingBuffer → ℕ → ℕ → Next
  copy it buffer offset length =
      if ltb offset w
      then (let x = index w buffer (w - 1 - offset) in
          yield x (record {
            iterator = it;
            buffer = push w buffer x;
            offset = offset;
            length = length - 1;
          }))
      else panic

  -- Called with no copy under way. After a reference `next` calls itself, and since `length` is
  -- positive then, that call is `copy`. Without an offset it ends, and `length` stays set.
  unfoldable pub read : List ℕ → RingBuffer → ℕ → Next
  unfolding copy
  read [] buffer offset =
      done (record { iterator = []; buffer = buffer; offset = offset; length = 0 })
  read (x ∷ it) buffer offset =
      let y = x / 2 in
      if x % 2 == 0
      then yield y (record { iterator = it; buffer = push w buffer y; offset = offset; length = 0 })
      else elim it [
        | [] ↦ done (record { iterator = []; buffer = buffer; offset = offset; length = y + 1 })
        | o ∷ rest ↦ copy rest buffer o (y + 1)
      ]

  unfoldable pub next : Decompressor → Next
  unfolding copy read
  next s =
      if ltb 0 s.length
      then copy s.iterator s.buffer s.offset s.length
      else read s.iterator s.buffer s.offset

  -- `collect`, for a number of calls of `next`; `none` is a panic, or too few calls.
  unfoldable pub collect : ℕ → Decompressor → Option (List ℕ)
  collect zero s = none
  collect (suc fuel) s = elim (next s) [
    | done s' ↦ some []
    | panic ↦ none
    | yield x s' ↦ elim (collect fuel s') [ none ↦ none | some xs ↦ some (x ∷ xs) ]
  ]
