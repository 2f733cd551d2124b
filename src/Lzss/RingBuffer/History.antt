-- ===== src/Lzss/RingBuffer/History.antt =====
-- What a ring buffer holds: the bytes pushed so far, newest first, zeros before the first.
use native.Mathlib.Nat.{mod-eq_of_lt, mod-eq-sub-mod, mod-add-mod, add-mod_right, mod-lt}
use native.Mathlib.Decide.{dec_lt}
use wispy_vm.Prelude.{
  ℕ, zero, suc, ◌+◌, ◌-◌, ◌*◌, ◌%◌, ◌≤◌, ◌<◌, ◌≡◌, ◌≢◌, ap, ◌∙◌, List, [], ◌∷◌, arith, length,
  get_or, set, length-set, length-replicate, get_or-replicate, get_or-set_self, get_or-set_ne,
}
use wispy_vm.Lzss.RingBuffer.{RingBuffer, new, position, push, index}

-- `hist` is what was pushed, newest first. Behind its end the buffer is zero.
pub record Holds (n : ℕ) (r : RingBuffer) (hist : List ℕ) : Type 0 where
  pub size : length r.buffer ≡ n
  pub offset_in : r.offset < n
  pub recent : (k : ℕ) → k < n → index n r (n - 1 - k) ≡ get_or hist k 0

pub new-Holds : (n : ℕ) → 0 < n → Holds n (new n) []
unfolding new index
new-Holds n h = record {
  size = length-replicate n 0;
  offset_in = h;
  recent = λ k hk. get_or-replicate n _ 0;
}

-- A step of `b` from `a`, both within one round.
add-mod_cases : (a b n : ℕ) → a < n → b < n → n ≤ a + b → (a + b) % n ≡ a + b - n
add-mod_cases a b n ha hb h =
    mod-eq-sub-mod {n = a + b} {m = n} h ∙ mod-eq_of_lt {n = a + b - n} {m = n} (omega arith)

module _ (n : ℕ) (r : RingBuffer) (x : ℕ) (inside : r.offset < n) where
  position-push : (i : ℕ) → position n (push n r x) i ≡ (r.offset + (i + 1)) % n
  unfolding push position
  position-push i = mod-add-mod (r.offset + 1) n i ∙ ap (λ k. k % n) (omega arith)

  position_newest : position n (push n r x) (n - 1) ≡ r.offset
  position_newest =
      position-push (n - 1)
      ∙ ap (λ k. (r.offset + k) % n) (omega arith)
      ∙ add-mod_right r.offset n
      ∙ mod-eq_of_lt inside

  -- A read behind the newest byte is a read of the old buffer, one place nearer.
  index_older :
      (k : ℕ)
      → length r.buffer ≡ n
      → suc k < n
      → index n (push n r x) (n - 1 - suc k) ≡ index n r (n - 1 - k)
  unfolding push index position
  index_older k size h =
      ap (λ p. get_or (set r.buffer r.offset x) p 0) same
      ∙ get_or-set_ne r.buffer r.offset _ x 0 apart
    where
      same : position n (push n r x) (n - 1 - suc k) ≡ position n r (n - 1 - k)
      same = position-push (n - 1 - suc k) ∙ ap (λ j. (r.offset + j) % n) (omega arith)

      apart : r.offset ≢ position n r (n - 1 - k)
      apart e = elim (dec_lt (r.offset + (n - 1 - k)) n) [
        | yes p ↦ omega (arith, mod-eq_of_lt p)
        | no p ↦
            omega (arith, add-mod_cases r.offset (n - 1 - k) n inside (omega arith) (omega arith))
      ]

-- A push puts its byte before the others.
pub push-Holds :
    (n : ℕ) (r : RingBuffer) (hist : List ℕ) (x : ℕ)
    → Holds n r hist
    → Holds n (push n r x) (x ∷ hist)
unfolding push position index
push-Holds n r hist x h = record {
  size = length-set r.buffer r.offset x ∙ h.size;
  offset_in = omega (arith, mod-lt (r.offset + 1) {m = n} (omega (arith, h.offset_in)));
  recent = recent;
}
  where
    recent : (k : ℕ) → k < n → index n (push n r x) (n - 1 - k) ≡ get_or (x ∷ hist) k 0
    recent zero hk =
        ap (λ j. get_or (set r.buffer r.offset x) (((r.offset + 1) % n + j) % n) 0) (omega arith)
        ∙ ap (λ p. get_or (set r.buffer r.offset x) p 0) (position_newest n r x h.offset_in)
        ∙ get_or-set_self r.buffer r.offset x 0 (omega (arith, h.size, h.offset_in))
    recent (suc k) hk = index_older n r x h.offset_in k h.size hk ∙ h.recent k (omega arith)

-- The `d`th newest byte stands `d + 1` places before the end of any further round.
pub index_round :
    (n : ℕ) (r : RingBuffer) (hist : List ℕ) (i d : ℕ)
    → Holds n r hist
    → d < n
    → i + suc d ≡ 2 * n
    → index n r i ≡ get_or hist d 0
unfolding index position
index_round n r hist i d h hd e =
    ap (λ p. get_or r.buffer p 0) (ap (λ j. j % n) split ∙ add-mod_right (r.offset + (n - 1 - d)) n)
    ∙ h.recent d hd
  where
    split : r.offset + i ≡ r.offset + (n - 1 - d) + n
    split = omega arith
