-- ===== src/Lzss/Codec/RoundTrip.antt =====
-- Compression and decompression of lzss/src, end to end.
use wispy_vm.Prelude.{ℕ, suc, ◌+◌, ◌*◌, ◌≤◌, ◌<◌, ◌≡◌, refl, some, List, [], arith, length, All}
use wispy_vm.Lzss.{max_length, max_window_size}
use wispy_vm.Lzss.RingBuffer.{new}
use wispy_vm.Lzss.RingBuffer.History.{new-Holds}
use wispy_vm.Lzss.Encoding.{IsByte, IsSevenBit, Encodes, Encodes-length}
use wispy_vm.Lzss.Compress
use wispy_vm.Lzss.Compress.View.{View}
use wispy_vm.Lzss.Compress.Encode.{Encoded, collect-Ends}
use wispy_vm.Lzss.Decompress
use wispy_vm.Lzss.Decompress.Decode.{collect-Encodes}
use wispy_vm.Lzss.Decompress.Total.{collect_total}
use wispy_vm.Lzss.Codec.{compress, decompress}

start-View : (w : ℕ) (xs : List ℕ) → View w (Compress.start (w + max_length) xs) [] xs
unfolding Compress.start
start-View w xs = record {
  look = [];
  ahead = refl;
  small = omega arith;
  holds = new-Holds (w + max_length) (omega arith);
  split = refl;
}

compress-Encoded :
    (w : ℕ) (xs : List ℕ)
    → 0 < w
    → w ≤ max_window_size
    → All IsSevenBit xs
    → Encoded w (suc (length xs)) (Compress.start (w + max_length) xs) [] xs
compress-Encoded w xs pos small seven =
    collect-Ends w small pos (suc (length xs)) _ [] xs (start-View w xs)
      (unfold Compress.start in refl) seven (omega arith)

-- The decompressor with a window of `w` bytes, `0 < w`, reads every stream of the format: it does
-- not panic, and gives exactly the bytes that the stream stands for.
pub decompress-Encodes :
    (w : ℕ) {xs out : List ℕ} → 0 < w → Encodes w [] xs out → decompress w out ≡ some xs
unfolding decompress Decompress.start
decompress-Encodes w {xs} {out} pos r =
    collect-Encodes w (suc (128 * length out)) 0 (new w) r (new-Holds w pos)
      (omega (arith, Encodes-length r))

-- For a window of 1 to 256 bytes, the compressor ends on every list of 7-bit bytes, what it
-- writes is no longer than the list, and is a stream of the format that stands for the list.
pub compress-Encodes :
    (w : ℕ) (xs : List ℕ)
    → 0 < w
    → w ≤ max_window_size
    → All IsSevenBit xs
    → (out : List ℕ) × (compress (w + max_length) xs ≡ some out)
      × Encodes w [] xs out
      × (length out ≤ length xs)
unfolding compress
compress-Encodes w xs pos small seven =
    let (out, e, r) = compress-Encoded w xs pos small seven in (out, e, r, (Encodes-length r).1)

-- For a window of 1 to 256 bytes, the compressor ends on every list of 7-bit bytes, and the
-- decompressor with the same window turns what it wrote into that list again.
pub decompress-compress :
    (w : ℕ) (xs : List ℕ)
    → 0 < w
    → w ≤ max_window_size
    → All IsSevenBit xs
    → (out : List ℕ) × (compress (w + max_length) xs ≡ some out) × (decompress w out ≡ some xs)
decompress-compress w xs pos small seven =
    let (out, e, r, _) = compress-Encodes w xs pos small seven in
    (out, e, decompress-Encodes w pos r)

-- The decompressor with a window of 256 bytes or more neither panics nor runs on, whatever bytes
-- it is given.
pub decompress_total :
    (w : ℕ) (bytes : List ℕ)
    → max_window_size ≤ w
    → All IsByte bytes
    → (xs : List ℕ) × (decompress w bytes ≡ some xs)
unfolding decompress Decompress.start
decompress_total w bytes wide h =
    collect_total w wide (suc (128 * length bytes)) _
      (record { in_window = omega arith; bytes = h }) (omega arith)
