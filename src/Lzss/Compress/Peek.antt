-- ===== src/Lzss/Compress/Peek.antt =====
-- `peek` and `next` of lzss/src/compress.rs read the input in order and keep what is behind.
use wispy_vm.Prelude.{
  ℕ, zero, suc, ◌+◌, ◌-◌, ◌≤◌, ◌<◌, ◌≡◌, refl, sym, ap, ap₂, ◌∙◌, subst, Option, none, some, List,
  [], ◌∷◌, ◌++◌, append_assoc, arith, length, length-append, get_or, get_or-append_length, ltb,
  Bool-cases, inl, inr, ltb→lt, lt→ltb,
}
use wispy_vm.Lzss.{max_length}
use wispy_vm.Lzss.RingBuffer.{RingBuffer, push, index}
use wispy_vm.Lzss.RingBuffer.History.{Holds, push-Holds}
use wispy_vm.Lzss.Encoding.{onto, onto-append}
use wispy_vm.Lzss.Compress.{Compressor, peek, peek_loop, next_byte}
use wispy_vm.Lzss.Compress.View.{View, look_front}

abbrev after : Compressor → Option ℕ × List ℕ × RingBuffer × ℕ → Option ℕ × Compressor
after s (o, it, buffer, ahead) = (o, record s { iterator = it; buffer = buffer; ahead = ahead })

-- What `peek j` leaves: the same view, with more read ahead, and the byte `j` places on if any.
pub record Peeked (w : ℕ) (s : Compressor) (hist todo : List ℕ) (j : ℕ)
    (out : Option ℕ × Compressor) : Type 0 where
  pub view : View w out.1 hist todo
  pub grown : s.ahead ≤ out.1.ahead
  pub found : (y : ℕ) → out.0 ≡ some y → (j < out.1.ahead) × (y ≡ get_or todo j 0)
  pub same : out.1.pending ≡ s.pending

module _ (w : ℕ) (s : Compressor) (hist todo : List ℕ) (j : ℕ) where
  peek_loop-Peeked :
      (it : List ℕ) (rounds : ℕ) (buffer : RingBuffer) (ahead x : ℕ) (look : List ℕ)
      → ahead ≡ length look
      → s.ahead ≤ length look
      → length look + rounds ≡ suc j
      → j < max_length
      → Holds (w + max_length) buffer (onto look hist)
      → todo ≡ look ++ it
      → (rounds ≡ 0 → x ≡ get_or todo j 0)
      → Peeked w s hist todo j (after s (peek_loop (w + max_length) it rounds buffer ahead x))
  unfolding peek_loop
  peek_loop-Peeked it zero buffer ahead x look ea grown count hj h split ex = record {
    view = record { look = look; ahead = ea; small = omega arith; holds = h; split = split };
    grown = omega arith;
    found = λ y e. ground (arith, ex refl);
    same = refl;
  }
  peek_loop-Peeked [] (suc rounds) buffer ahead x look ea grown count hj h split ex = record {
    view = record { look = look; ahead = ea; small = omega arith; holds = h; split = split };
    grown = omega arith;
    found = λ y e. cc;
    same = refl;
  }
  peek_loop-Peeked (y ∷ it) (suc rounds) buffer ahead x look ea grown count hj h split ex =
      peek_loop-Peeked it rounds (push (w + max_length) buffer y) (ahead + 1) y (look ++ (y ∷ []))
        (omega (arith, length-append look (y ∷ []))) (omega (arith, length-append look (y ∷ [])))
        (omega (arith, length-append look (y ∷ []))) hj
        (subst (λ l. Holds (w + max_length) (push (w + max_length) buffer y) l)
          (sym (onto-append look (y ∷ []) hist))
          (push-Holds (w + max_length) buffer (onto look hist) y h))
        (split ∙ sym (append_assoc look (y ∷ []) it))
        (λ e.
          sym (get_or-append_length look y it 0)
          ∙ ap₂ (λ l k. get_or l k 0) (sym split) (omega arith))

  -- `peek` within the window's reach.
  pub peek-Peeked :
      View w s hist todo
      → j ≤ s.ahead
      → j < max_length
      → Peeked w s hist todo j (peek (w + max_length) s j)
  unfolding peek
  peek-Peeked v near hj = elim (Bool-cases (ltb j s.ahead)) [
    | inl inside ↦ rw inside (record {
      view = v;
      grown = omega arith;
      found = λ y e. (ltb→lt j s.ahead inside, cc (look_front w v j (ltb→lt j s.ahead inside)));
      same = refl;
    })
    | inr outside ↦ rw outside (
        peek_loop-Peeked s.iterator (j + 1 - s.ahead) s.buffer s.ahead 0 v.look v.ahead
          (omega (arith, v.ahead)) (ground (arith, v.ahead)) hj v.holds v.split
          (λ e. absurd (ground arith)))
  ]

-- What `next` gives and leaves.
pub data Took (w : ℕ) (hist : List ℕ) (pending : Option ℕ)
    : List ℕ → Option (ℕ × Compressor) → Type 0 where
  ended : Took w hist pending [] none
  took :
      (x : ℕ) {rest : List ℕ} {s : Compressor}
      → View w s (x ∷ hist) rest
      → s.pending ≡ pending
      → Took w hist pending (x ∷ rest) (some (x, s))

module _ (w : ℕ) (buffer : RingBuffer) (hist : List ℕ) (pending : Option ℕ) where
  abbrev state : List ℕ → ℕ → Compressor
  state it ahead = record { iterator = it; buffer = buffer; ahead = ahead; pending = pending }

  next_byte-read :
      (it : List ℕ)
      → Holds (w + max_length) buffer hist
      → Took w hist pending it (next_byte (w + max_length) (state it 0))
  unfolding next_byte
  next_byte-read [] h = ended
  next_byte-read (x ∷ it) h =
      took x
        (record {
          look = [];
          ahead = refl;
          small = omega arith;
          holds = push-Holds (w + max_length) buffer hist x h;
          split = refl;
        })
        refl

  next_byte-ahead :
      (x : ℕ) (look it : List ℕ) (ahead : ℕ)
      → ahead ≡ suc (length look)
      → View w (state it ahead) hist ((x ∷ look) ++ it)
      → ahead ≤ max_length
      → Holds (w + max_length) buffer (onto look (x ∷ hist))
      → Took w hist pending ((x ∷ look) ++ it) (next_byte (w + max_length) (state it ahead))
  unfolding next_byte
  next_byte-ahead x look it ahead e v small h = rw (lt→ltb 0 ahead (omega arith)) (
      subst (λ y. Took w hist pending ((x ∷ look) ++ it) (some (y, state it (ahead - 1)))) front
        (took x
          (record {
            look = look;
            ahead = omega arith;
            small = omega arith;
            holds = h;
            split = refl;
          })
          refl))
    where
      front : x ≡ index (w + max_length) buffer (w + max_length - ahead)
      front =
          sym (look_front w v 0 (omega arith)) ∙ ap (index (w + max_length) buffer) (omega arith)

  next_byte-look :
      (look it : List ℕ) (ahead : ℕ)
      → ahead ≡ length look
      → length look ≤ max_length
      → Holds (w + max_length) buffer (onto look hist)
      → Took w hist pending (look ++ it) (next_byte (w + max_length) (state it ahead))
  next_byte-look [] it ahead e small h = rw e (next_byte-read it h)
  next_byte-look (x ∷ look) it ahead e small h =
      next_byte-ahead x look it ahead e
        (record { look = x ∷ look; ahead = e; small = small; holds = h; split = refl })
        (omega arith) h

-- `next` takes the first byte that is still to encode, read ahead or not.
pub next_byte-Took :
    (w : ℕ) {s : Compressor} {hist todo : List ℕ}
    → View w s hist todo
    → Took w hist s.pending todo (next_byte (w + max_length) s)
next_byte-Took w {s} {hist} v =
    rw v.split
      (next_byte-look w s.buffer hist s.pending v.look s.iterator s.ahead v.ahead v.small v.holds)
