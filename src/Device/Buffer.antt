-- ===== src/Device/Buffer.antt =====
-- device/src/device/libc/buffer.rs: the buffers that a device reads from and writes to.
pub mod Reading
mod Tests
use wispy_vm.Device.{BufferError, Result, ok, err}
use wispy_vm.Prelude.{
  ℕ, zero, suc, ◌+◌, Option, none, some, List, [], ◌∷◌, get_elem?, set as set_at, take, length,
}

-- `struct Buffer`
pub record Buffer : Type 0 where
  pub data_buffers : List (List ℕ)
  pub buffer_index : ℕ
  pub byte_index : ℕ

unfoldable pub new : List (List ℕ) → Buffer
new data_buffers = record { data_buffers = data_buffers; buffer_index = 0; byte_index = 0 }

-- What a read leaves: the byte that was read, and the buffer. `none` means that the fuel ran out.
abbrev pub ReadResult : Type 0
ReadResult = Option (Option ℕ × Buffer)

-- `read_raw`. The recursion goes to the next buffer, so it ends within the number of buffers.
unfoldable pub read_raw : ℕ → Buffer → ReadResult
read_raw zero b = none
read_raw (suc fuel) b = elim (get_elem? b.data_buffers b.buffer_index) [
  | none ↦ some (none, b)
  | some bytes ↦ elim (get_elem? bytes b.byte_index) [
    | none ↦ read_raw fuel (record b { buffer_index = b.buffer_index + 1; byte_index = 0 })
    | some byte ↦ some (some byte, record b { byte_index = b.byte_index + 1 })
  ]
]

-- `Read for Buffer`, with fuel for one round more than there are buffers.
unfoldable pub read : Buffer → ReadResult
unfolding read_raw
read b = read_raw (length b.data_buffers + 1) b

-- `struct BufferMut`
pub record BufferMut : Type 0 where
  pub bytes : List ℕ
  pub index : ℕ

unfoldable pub new_mut : List ℕ → BufferMut
new_mut bytes = record { bytes = bytes; index = 0 }

unfoldable pub as_bytes : BufferMut → List ℕ
as_bytes b = take b.index b.bytes

-- `Write for BufferMut`: an error leaves the buffer as it was.
unfoldable pub write : ℕ → BufferMut → BufferMut × Result BufferError (Unit {0})
write byte b = elim (get_elem? b.bytes b.index) [
  | none ↦ (b, err BufferError.write)
  | some _ ↦ (record b { bytes = set_at b.bytes b.index byte; index = b.index + 1 }, ok tt)
]
