-- ===== src/Lzss/Tests.antt =====
-- The unit tests of the crate lzss, and its theorems at concrete inputs.
use wispy_vm.Prelude.{ℕ, ◌≡◌, ◌≤◌, refl, some, Option, List, [], ◌∷◌, arith, length}
use wispy_vm.Lzss.RingBuffer
use wispy_vm.Lzss.Encoding.{Encodes, end, literal, reference}
use wispy_vm.Lzss.Compress
use wispy_vm.Lzss.Decompress
use wispy_vm.Lzss.Codec.{compress, decompress}
use wispy_vm.Lzss.Codec.RoundTrip.{
  decompress-Encodes, compress-Encodes, decompress-compress, decompress_total,
}

compress_runs : ℕ → List ℕ → Option (List ℕ)
unfolding compress Compress.start Compress.collect Compress.next Compress.longest_match
    Compress.search_window Compress.search_from Compress.match_loop Compress.agrees Compress.emit
    Compress.next_byte RingBuffer.new RingBuffer.push RingBuffer.index
compress_runs = compress

decompress_runs : ℕ → List ℕ → Option (List ℕ)
unfolding decompress Decompress.start Decompress.collect Decompress.next RingBuffer.new
    RingBuffer.push RingBuffer.index
decompress_runs = decompress

four_repetitions : compress_runs 136 (42 ∷ 42 ∷ 42 ∷ 42 ∷ []) ≡ some (84 ∷ 5 ∷ 0 ∷ [])
unfolding compress_runs
four_repetitions = refl

uninitialized_zeros : compress_runs 136 (0 ∷ 0 ∷ 0 ∷ []) ≡ some (5 ∷ 0 ∷ [])
unfolding compress_runs
uninitialized_zeros = refl

repetition :
    decompress_runs 8 (2 ∷ 4 ∷ 6 ∷ 8 ∷ 9 ∷ 3 ∷ []) ≡ some (1 ∷ 2 ∷ 3 ∷ 4 ∷ 1 ∷ 2 ∷ 3 ∷ 4 ∷ 1 ∷ [])
unfolding decompress_runs
repetition = refl

-- An offset outside a small window is the panic.
offset_outside : decompress_runs 8 (3 ∷ 8 ∷ []) ≡ Option.none
unfolding decompress_runs
offset_outside = refl

abbrev forty_two : List ℕ
forty_two = 42 ∷ 42 ∷ 42 ∷ 42 ∷ []

forty_two-Encodes : Encodes 8 [] forty_two (84 ∷ 5 ∷ 0 ∷ [])
forty_two-Encodes = literal 42 (omega arith) (
    reference 0 2 (omega arith) (omega arith) (omega arith) (omega arith) (refl, (refl, (refl, tt)))
      end)

decompress-Encodes_example : decompress 8 (84 ∷ 5 ∷ 0 ∷ []) ≡ some forty_two
decompress-Encodes_example = decompress-Encodes 8 (omega arith) forty_two-Encodes

compress-Encodes_example :
    (out : List ℕ) × (compress 136 forty_two ≡ some out)
    × Encodes 8 [] forty_two out
    × (length out ≤ 4)
compress-Encodes_example = compress-Encodes 8 forty_two (omega arith) (omega arith) (omega arith)

decompress-compress_example :
    (out : List ℕ) × (compress 136 forty_two ≡ some out) × (decompress 8 out ≡ some forty_two)
decompress-compress_example =
    decompress-compress 8 forty_two (omega arith) (omega arith) (omega arith)

decompress_total_example : (xs : List ℕ) × (decompress 256 (255 ∷ 7 ∷ 4 ∷ 1 ∷ []) ≡ some xs)
decompress_total_example = decompress_total 256 (255 ∷ 7 ∷ 4 ∷ 1 ∷ []) (omega arith) (omega arith)
