-- ===== src/Lzss/Compress/Encode.antt =====
-- The compressor writes a stream of the format, for every input of 7-bit bytes.
use wispy_vm.Prelude.{
  ℕ, zero, suc, ◌+◌, ◌-◌, ◌*◌, ◌%◌, ◌≤◌, ◌<◌, ◌≡◌, refl, sym, ap, ◌∙◌, subst, Option, none, some,
  List, [], ◌∷◌, arith, length, take, drop, All, ltb, Bool-cases, inl, inr, tests,
}
use wispy_vm.Lzss.{max_length, max_window_size}
use wispy_vm.Lzss.RingBuffer.History.{Holds}
use wispy_vm.Lzss.Encoding.{
  IsSevenBit, onto, Copies, Copies-length, Encodes, end, literal, reference, take-append,
  drop-append, length-drop, onto-take-drop, All-drop,
}
use wispy_vm.Lzss.Compress.{Compressor, min_length, longest_match, emit, next, collect}
use wispy_vm.Lzss.Compress.View.{View}
use wispy_vm.Lzss.Compress.Peek.{Took, ended, took, next_byte-Took}
use wispy_vm.Lzss.Compress.Search.{Matched, longest_match-Matched}

-- What one search writes: nothing at the end, a literal, or the first byte of a reference with the
-- second pending.
data Emitted (w : ℕ) (hist todo : List ℕ) : Option (ℕ × Compressor) → Type 0 where
  finished : todo ≡ [] → Emitted w hist todo none
  single :
      (x : ℕ) {rest : List ℕ} {s : Compressor}
      → todo ≡ x ∷ rest
      → View w s (x ∷ hist) rest
      → s.pending ≡ none
      → Emitted w hist todo (some (x * 2 % 256, s))
  double :
      (n m : ℕ) {s : Compressor}
      → n < w
      → 1 < m
      → m < max_length
      → Copies n (suc m) todo hist
      → View w s (onto (take (suc m) todo) hist) (drop (suc m) todo)
      → s.pending ≡ some n
      → Emitted w hist todo (some (m * 2 + 1, s))

-- A literal, out of what `next` of the buffer gave.
Took-Emitted :
    {w : ℕ} {hist : List ℕ} {pending : Option ℕ} {todo : List ℕ} {out : Option (ℕ × Compressor)}
    → pending ≡ none
    → Took w hist pending todo out
    → Emitted w hist todo (elim out [ none ↦ none | some (x, s) ↦ some (x * 2 % 256, s) ])
Took-Emitted e ended = finished refl
Took-Emitted e (took x v same) = single x refl v (same ∙ e)

module _ (w : ℕ) (hist todo : List ℕ) where
  -- A reference moves its bytes from what was read ahead to the history.
  View-drop :
      (m : ℕ) {s : Compressor} (pending : Option ℕ)
      → View w s hist todo
      → m ≤ s.ahead
      → View w
          (record s { ahead = s.ahead - m; pending = pending })
          (onto (take m todo) hist)
          (drop m todo)
  View-drop m {s} pending v h = record {
    look = drop m v.look;
    ahead = omega (arith, v.ahead, length-drop v.look m);
    small = omega (arith, v.small, length-drop v.look m);
    holds = subst (Holds (w + max_length) s.buffer) front v.holds;
    split = ap (drop m) v.split ∙ drop-append v.look s.iterator m (omega (arith, v.ahead));
  }
    where
      front : onto v.look hist ≡ onto (drop m v.look) (onto (take m todo) hist)
      front =
          sym (onto-take-drop v.look hist m)
          ∙ ap (λ t. onto (drop m v.look) (onto t hist))
              (sym (take-append v.look s.iterator m (omega (arith, v.ahead)))
                ∙ ap (take m) (sym v.split))

  -- A reference; its two bytes fit eight bits.
  reference-Emitted :
      (n m : ℕ) {s : Compressor}
      → w ≤ max_window_size
      → n < w
      → 1 < m
      → Matched w hist todo none 0 n (suc m) s
      → Emitted w hist todo (
          some (
            (suc m - 1) * 2 % 256 + 1,
            record s { ahead = s.ahead - suc m; pending = some (n % 256) },
          ))
  reference-Emitted n m {s} small hn long v =
      subst
        (λ c.
          Emitted w hist todo
            (some (c, record s { ahead = s.ahead - suc m; pending = some (n % 256) })))
        {x = m * 2 + 1} (omega (arith, v.short))
        (double n m hn long v.short v.copies (View-drop (suc m) (some (n % 256)) v.view v.reached)
          (ap some (omega arith)))

  emit-Emitted :
      (n m : ℕ) (s : Compressor)
      → w ≤ max_window_size
      → n < w
      → Matched w hist todo none 0 n m s
      → Emitted w hist todo (emit (w + max_length) n m s)
  unfolding emit
  emit-Emitted n zero s small hn v = Took-Emitted v.same (next_byte-Took w v.view)
  emit-Emitted n (suc m) s small hn v = elim (Bool-cases (ltb min_length (suc m))) [
    | inl long ↦ rw long (reference-Emitted n m small hn (omega (tests, long)) v)
    | inr few ↦ rw few (Took-Emitted v.same (next_byte-Took w v.view))
  ]

  next-Emitted :
      (s : Compressor)
      → 0 < w
      → w ≤ max_window_size
      → View w s hist todo
      → s.pending ≡ none
      → Emitted w hist todo (next (w + max_length) s)
  unfolding next
  next-Emitted s pos small v e =
      let (hn, found) = longest_match-Matched w hist todo s pos v in
      rw (e, next)
        (emit-Emitted _ _ _ small hn (
          subst
            (λ p.
              let ((n, m), s') = longest_match (w + max_length) s in Matched w hist todo p 0 n m s')
            e found))

module _ (b : ℕ) where
  collect-none : (f : ℕ) (s : Compressor) → next b s ≡ none → collect b (suc f) s ≡ some []
  unfolding collect
  collect-none f s e = rw (e, collect)

  collect-some :
      (f x : ℕ) (s : Compressor) {s' : Compressor} {out : List ℕ}
      → next b s ≡ some (x, s')
      → collect b f s' ≡ some out
      → collect b (suc f) s ≡ some (x ∷ out)
  unfolding collect
  collect-some f x s e e' = rw (e, collect, e')

  -- A pending byte is written with no search.
  next-pending :
      (n : ℕ) (s : Compressor)
      → s.pending ≡ some n
      → next b s ≡ some (n, record s { pending = none })
  unfolding next
  next-pending n s e = rw (e, next)

-- The compressor ends within `f` calls, and what it wrote encodes what was left.
abbrev pub Encoded : ℕ → ℕ → Compressor → List ℕ → List ℕ → Type 0
Encoded w f s hist todo =
    (out : List ℕ) × (collect (w + max_length) f s ≡ some out) × Encodes w hist todo out

-- It does so from every state with fewer than `f` bytes left.
abbrev pub Ends : ℕ → ℕ → Type 0
Ends w f =
    (s : Compressor) (hist todo : List ℕ)
    → View w s hist todo
    → s.pending ≡ none
    → All IsSevenBit todo
    → length todo < f
    → Encoded w f s hist todo

module _ (w f : ℕ) (small : w ≤ max_window_size) (s : Compressor) (hist : List ℕ) where
  literal-Encoded :
      (x : ℕ) (rest : List ℕ) {s' : Compressor}
      → IsSevenBit x
      → next (w + max_length) s ≡ some (x * 2 % 256, s')
      → Encoded w f s' (x ∷ hist) rest
      → Encoded w (suc f) s hist (x ∷ rest)
  literal-Encoded x rest hx e (out, e', r) =
      let fits : x * 2 % 256 ≡ x * 2 = omega arith in
      (x * 2 ∷ out, collect-some (w + max_length) f (x * 2) s (rw fits at e) e', literal x hx r)

  reference-Encoded :
      (n m : ℕ) (todo : List ℕ) {s' : Compressor}
      → n < w
      → 1 < m
      → m < max_length
      → Copies n (suc m) todo hist
      → next (w + max_length) s ≡ some (m * 2 + 1, s')
      → s'.pending ≡ some n
      → Encoded w f
          (record s' { pending = none })
          (onto (take (suc m) todo) hist)
          (drop (suc m) todo)
      → Encoded w (suc (suc f)) s hist todo
  reference-Encoded n m todo {s'} hn lo hi c e p (out, e', r) = (
    (m * 2 + 1) ∷ n ∷ out,
    collect-some (w + max_length) (suc f) (m * 2 + 1) s e
        (collect-some (w + max_length) f n s' (next-pending (w + max_length) n s' p) e'),
    reference n m hn (omega arith) (omega arith) hi c r,
  )

View-clear :
    {w : ℕ} {s : Compressor} {hist todo : List ℕ}
    → View w s hist todo
    → View w (record s { pending = none }) hist todo
View-clear v = record {
  look = v.look;
  ahead = v.ahead;
  small = v.small;
  holds = v.holds;
  split = v.split;
}

module _ (w : ℕ) (small : w ≤ max_window_size) where
  Emitted-Encoded :
      (f : ℕ) (s : Compressor) (hist todo : List ℕ) {r : Option (ℕ × Compressor)}
      → Ends w f
      → Ends w (suc f)
      → All IsSevenBit todo
      → length todo < suc (suc f)
      → next (w + max_length) s ≡ r
      → Emitted w hist todo r
      → Encoded w (suc (suc f)) s hist todo
  Emitted-Encoded f s hist todo two one seven hf e (finished nil) =
      rw nil ([], collect-none (w + max_length) (suc f) s e, end)
  Emitted-Encoded f s hist todo two one seven hf e (single x {rest} {s = s'} et v p) =
      let (hx, seven') = subst (All IsSevenBit) et seven in
      rw et (
        literal-Encoded w (suc f) small s hist x rest hx e
          (one s' (x ∷ hist) rest v p seven' (omega (arith, ap length et))))
  Emitted-Encoded f s hist todo two one seven hf e (double n m {s = s'} hn lo hi c v p) =
      reference-Encoded w f small s hist n m todo hn lo hi c e p (
        two (record s' { pending = none }) _ (drop (suc m) todo) (View-clear v) refl
          (All-drop IsSevenBit todo (suc m) seven)
          (omega (arith, length-drop todo (suc m), Copies-length n (suc m) todo hist c)))

  -- With one call more than there are bytes left, the compressor ends.
  pub collect-Ends : 0 < w → (f : ℕ) → Ends w f
  collect-Ends pos zero s hist todo v e seven hf = absurd (omega arith)
  collect-Ends pos (suc zero) s hist (x ∷ todo) v e seven hf = absurd (omega arith)
  collect-Ends pos (suc zero) s hist [] v e seven hf = (
    [],
    collect-none (w + max_length) 0 s (nothing (next-Emitted w hist [] s pos small v e)),
    end,
  )
    where
      nothing : {out : Option (ℕ × Compressor)} → Emitted w hist [] out → out ≡ none
      nothing (finished e) = refl
      nothing (single x e v p) = cc
      nothing (double n m hn lo hi c v p) = absurd c
  collect-Ends pos (suc (suc f)) s hist todo v e seven hf =
      Emitted-Encoded f s hist todo (collect-Ends pos f) (collect-Ends pos (suc f)) seven hf refl
        (next-Emitted w hist todo s pos small v e)
