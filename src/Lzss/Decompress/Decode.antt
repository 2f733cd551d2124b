-- ===== src/Lzss/Decompress/Decode.antt =====
-- The decompressor reads back every stream of the format.
use wispy_vm.Prelude.{
  ℕ, zero, suc, ◌+◌, ◌-◌, ◌*◌, ◌≤◌, ◌<◌, ◌≡◌, refl, sym, ap, ◌∙◌, some, List, [], ◌∷◌, arith,
  length, take, drop,
}
use wispy_vm.Lzss.RingBuffer.{RingBuffer, push, index}
use wispy_vm.Lzss.RingBuffer.History.{Holds, push-Holds}
use wispy_vm.Lzss.Encoding.{
  onto, Copies, Copies-length, length-drop, Encodes, end, literal, reference,
}
use wispy_vm.Lzss.Decompress.{Decompressor, next, collect}

suc-sub-one : (m : ℕ) → suc m - 1 ≡ m
suc-sub-one m = omega arith

abbrev pub state : List ℕ → RingBuffer → ℕ → ℕ → Decompressor
state it buffer offset length = record {
  iterator = it;
  buffer = buffer;
  offset = offset;
  length = length;
}

module _ (w : ℕ) where
  -- One call of `next` while a copy is under way.
  collect-copy_one :
      (f m n x : ℕ) (it : List ℕ) (buffer : RingBuffer) {xs : List ℕ}
      → n < w
      → index w buffer (w - 1 - n) ≡ x
      → collect w f (state it (push w buffer x) n m) ≡ some xs
      → collect w (suc f) (state it buffer n (suc m)) ≡ some (x ∷ xs)
  unfolding collect next
  collect-copy_one f m n x it buffer hn e rest = ground (arith, suc-sub-one m)

  -- A copy under way gives `m` bytes, and then what the rest of the stream gives.
  collect-copy :
      (m f n : ℕ) (it : List ℕ) (buffer : RingBuffer) (hist todo : List ℕ)
      → Holds w buffer hist
      → n < w
      → Copies n m todo hist
      → ((buffer' : RingBuffer)
          → Holds w buffer' (onto (take m todo) hist)
          → collect w f (state it buffer' n 0) ≡ some (drop m todo))
      → collect w (m + f) (state it buffer n m) ≡ some todo
  collect-copy zero f n it buffer hist todo h hn c rest =
      ap (λ k. collect w k (state it buffer n 0)) (omega arith) ∙ rest buffer h
  collect-copy (suc m) f n it buffer hist [] h hn c rest = absurd c
  collect-copy (suc m) f n it buffer hist (x ∷ todo) h hn c rest =
      ap (λ k. collect w k (state it buffer n (suc m))) (omega arith)
      ∙ collect-copy_one (m + f) m n x it buffer hn (h.recent n hn ∙ sym c.0) (
          collect-copy m f n it (push w buffer x) (x ∷ hist) todo (push-Holds w buffer hist x h) hn
            c.1 rest)

  collect-literal :
      (f x offset : ℕ) (it : List ℕ) (buffer : RingBuffer) {xs : List ℕ}
      → collect w f (state it (push w buffer x) offset 0) ≡ some xs
      → collect w (suc f) (state (x * 2 ∷ it) buffer offset 0) ≡ some (x ∷ xs)
  unfolding collect next
  collect-literal f x offset it buffer rest = ground arith

  collect-reference :
      (f m n offset : ℕ) (it : List ℕ) (buffer : RingBuffer)
      → collect w (suc f) (state ((m * 2 + 1) ∷ n ∷ it) buffer offset 0)
        ≡ collect w (suc f) (state it buffer n (suc m))
  unfolding collect next
  collect-reference f m n offset it buffer = ground arith

  -- With one call more than there are bytes to come, the decompressor gives exactly those bytes.
  pub collect-Encodes :
      {hist todo out : List ℕ} (f offset : ℕ) (buffer : RingBuffer)
      → Encodes w hist todo out
      → Holds w buffer hist
      → length todo < f
      → collect w f (state out buffer offset 0) ≡ some todo
  collect-Encodes zero offset buffer r h hf = absurd (omega arith)
  collect-Encodes (suc f) offset buffer end h hf = unfold collect next in refl
  collect-Encodes (suc f) offset buffer (literal {hist} x hx r) h hf =
      collect-literal f x offset _ buffer
        (collect-Encodes f offset (push w buffer x) r (push-Holds w buffer hist x h) (omega arith))
  collect-Encodes (suc f) offset buffer (reference {hist} {todo} {out} n m hw hn pos hm c r) h hf =
      collect-reference f m n offset out buffer
      ∙ ap (λ k. collect w k (state out buffer n (suc m))) split
      ∙ collect-copy (suc m) (suc f - suc m) n out buffer hist todo h hw c (λ buffer' h'.
        collect-Encodes (suc f - suc m) n buffer' r h'
          (omega (arith, length-drop todo (suc m), bound)))
    where
      bound : suc m ≤ length todo
      bound = Copies-length n (suc m) todo hist c

      split : suc f ≡ suc m + (suc f - suc m)
      split = omega (arith, bound)
