-- ===== src/Lzss/Codec.antt =====
-- lzss/src/lib.rs: the two operations of the trait `Lzss`, with what they give collected.
pub mod RoundTrip
use wispy_vm.Prelude.{ℕ, suc, ◌*◌, Option, List, length}
use wispy_vm.Lzss.Compress
use wispy_vm.Lzss.Decompress

-- `b` is the size of the buffer, the window and the longest match together. Each call of `next`
-- writes a byte, and a byte stands for one byte at least.
unfoldable pub compress : ℕ → List ℕ → Option (List ℕ)
compress b bytes = Compress.collect b (suc (length bytes)) (Compress.start b bytes)

-- A byte of the stream stands for at most 128 bytes. `none` is a panic.
unfoldable pub decompress : ℕ → List ℕ → Option (List ℕ)
decompress w bytes = Decompress.collect w (suc (128 * length bytes)) (Decompress.start w bytes)
