-- ===== src/Lzss/Compress/View.antt =====
-- What a compressor stands for: the bytes it has encoded and those it has still to encode.
use wispy_vm.Prelude.{
  ℕ, ◌+◌, ◌-◌, ◌*◌, ◌≤◌, ◌<◌, ◌≡◌, sym, ap, ◌∙◌, List, ◌++◌, arith, length, get_or,
  get_or-append_left, take,
}
use wispy_vm.Lzss.{max_length}
use wispy_vm.Lzss.RingBuffer.{RingBuffer, index}
use wispy_vm.Lzss.RingBuffer.History.{Holds, index_round}
use wispy_vm.Lzss.Encoding.{onto, take-append, get_or-onto, get_or-onto_newest}
use wispy_vm.Lzss.Compress.{Compressor}

-- `look` is what was read ahead: it stands in the buffer before the history `hist`.
pub record View (w : ℕ) (s : Compressor) (hist todo : List ℕ) : Type 0 where
  pub look : List ℕ
  pub ahead : s.ahead ≡ length look
  pub small : length look ≤ max_length
  pub holds : Holds (w + max_length) s.buffer (onto look hist)
  pub split : todo ≡ look ++ s.iterator

module _ (w : ℕ) where
  -- The byte at the front of what was read ahead, `j` places on.
  pub look_ahead :
      (buffer : RingBuffer) (look hist : List ℕ) (j : ℕ)
      → Holds (w + max_length) buffer (onto look hist)
      → length look ≤ max_length
      → j < length look
      → index (w + max_length) buffer (w + max_length - length look + j) ≡ get_or look j 0
  look_ahead buffer look hist j h small hj =
      ap (index (w + max_length) buffer) (omega arith)
      ∙ h.recent (length look - 1 - j) (omega arith)
      ∙ get_or-onto_newest look hist j hj

  -- The byte of the window at the distance `i + 1` before the place `j`.
  pub look_back :
      {s : Compressor} {hist todo : List ℕ} (v : View w s hist todo) (i j : ℕ)
      → i < w
      → j ≤ s.ahead
      → index (w + max_length) s.buffer (2 * (w + max_length) - s.ahead - 1 - i + j)
        ≡ get_or (onto (take j todo) hist) i 0
  look_back {s} {hist} {todo} v i j hi hj =
      index_round (w + max_length) s.buffer (onto v.look hist) _ (length v.look + i - j) v.holds
        (omega (arith, v.ahead, v.small)) (omega (arith, v.ahead, v.small))
      ∙ get_or-onto v.look hist j i (omega (arith, v.ahead))
      ∙ ap (λ t. get_or (onto t hist) i 0)
          (sym (take-append v.look s.iterator j (omega (arith, v.ahead)))
            ∙ ap (take j) (sym v.split))

  -- What was read ahead is the front of what is still to encode.
  pub look_front :
      {s : Compressor} {hist todo : List ℕ} (v : View w s hist todo) (j : ℕ)
      → j < s.ahead
      → index (w + max_length) s.buffer (w + max_length - s.ahead + j) ≡ get_or todo j 0
  look_front {s} {hist} {todo} v j hj =
      ap (λ a. index (w + max_length) s.buffer (w + max_length - a + j)) v.ahead
      ∙ look_ahead s.buffer v.look hist j v.holds v.small (omega (arith, v.ahead))
      ∙ sym (get_or-append_left v.look s.iterator j 0 (omega (arith, v.ahead)))
      ∙ ap (λ t. get_or t j 0) (sym v.split)
