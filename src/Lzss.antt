-- ===== src/Lzss.antt =====
-- The crate lzss: LZSS compression of 7-bit bytes, with the constants of lzss/src/lib.rs.
pub mod RingBuffer
pub mod Encoding
pub mod Decompress
pub mod Compress
pub mod Codec
mod Tests
use wispy_vm.Prelude.{ℕ, ◌^◌}

abbrev pub max_window_size : ℕ
max_window_size = 2 ^ 8

abbrev pub max_length : ℕ
max_length = 2 ^ 7
