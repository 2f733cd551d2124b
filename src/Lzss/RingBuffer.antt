-- ===== src/Lzss/RingBuffer.antt =====
-- lzss/src/ring_buffer.rs: the last `n` bytes of a stream. A byte is a number below 256.
pub mod History
use wispy_vm.Prelude.{ℕ, ◌+◌, ◌%◌, List, replicate, set, get_or}

pub record RingBuffer : Type 0 where
  pub buffer : List ℕ
  pub offset : ℕ

module _ (n : ℕ) where
  unfoldable pub new : RingBuffer
  new = record { buffer = replicate n 0; offset = 0 }

  unfoldable pub position : RingBuffer → ℕ → ℕ
  position r index = (r.offset + index) % n

  -- The write and the read are in range while `offset < n`; `History.Holds` says so.
  unfoldable pub push : RingBuffer → ℕ → RingBuffer
  unfolding position
  push r byte = record { buffer = set r.buffer r.offset byte; offset = position r 1 }

  unfoldable pub index : RingBuffer → ℕ → ℕ
  unfolding position
  index r i = get_or r.buffer (position r i) 0
