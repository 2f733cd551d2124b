-- ===== src/Lzss/Decompress/Total.antt =====
-- The decompressor answers every input: over a window of 256 bytes no input makes it panic.
use wispy_vm.Prelude.{
  ℕ, zero, suc, ◌+◌, ◌*◌, ◌≤◌, ◌<◌, ◌≡◌, refl, some, List, [], ◌∷◌, arith, length, All,
}
use wispy_vm.Lzss.{max_window_size}
use wispy_vm.Lzss.RingBuffer.{RingBuffer}
use wispy_vm.Lzss.Encoding.{IsByte}
use wispy_vm.Lzss.Decompress.{Decompressor, Next, yield, done, panic, next, read, copy, collect}

-- How many more calls of `next` can give a byte.
abbrev pub budget : Decompressor → ℕ
budget s = s.length + 128 * length s.iterator

pub record IsReady (s : Decompressor) : Type 0 where
  pub in_window : s.offset < max_window_size
  pub bytes : All IsByte s.iterator

-- What a call of `next` leaves: it does not panic, and what it gives uses the budget up.
abbrev Steps : ℕ → Next → Type 0
Steps n (done s) = Unit {0}
Steps n panic = ⊥
Steps n (yield x s) = IsReady s × (budget s < n)

module _ (w : ℕ) (wide : max_window_size ≤ w) where
  copy-Steps :
      (it : List ℕ) (buffer : RingBuffer) (offset k : ℕ)
      → offset < max_window_size
      → All IsByte it
      → 0 < k
      → Steps (k + 128 * length it) (copy w it buffer offset k)
  unfolding copy
  copy-Steps it buffer offset k ho hi hk = ground arith

  read-Steps :
      (it : List ℕ) (buffer : RingBuffer) (offset : ℕ)
      → offset < max_window_size
      → All IsByte it
      → Steps (128 * length it) (read w it buffer offset)
  unfolding read
  read-Steps [] buffer offset ho hi = tt
  read-Steps (x ∷ []) buffer offset ho hi = ground arith
  read-Steps (x ∷ o ∷ rest) buffer offset ho hi = ground arith

  next-Steps : (s : Decompressor) → IsReady s → Steps (budget s) (next w s)
  unfolding next
  next-Steps s r = ground (
    arith,
    copy-Steps s.iterator s.buffer s.offset s.length r.in_window r.bytes,
    read-Steps s.iterator s.buffer s.offset r.in_window r.bytes,
  )

  -- `collect` goes on with what one call of `next` leaves.
  collect-yield :
      (f x : ℕ) (s s' : Decompressor)
      → next w s ≡ yield x s'
      → (xs : List ℕ) × (collect w f s' ≡ some xs)
      → (xs : List ℕ) × (collect w (suc f) s ≡ some xs)
  unfolding collect
  collect-yield f x s s' e (xs, e') = (x ∷ xs, rw (e, collect, e') refl)

  collect-done :
      (f : ℕ) (s s' : Decompressor)
      → next w s ≡ done s'
      → (xs : List ℕ) × (collect w (suc f) s ≡ some xs)
  unfolding collect
  collect-done f s s' e = ([], rw (e, collect))

  pub collect_total :
      (f : ℕ) (s : Decompressor)
      → IsReady s
      → budget s < f
      → (xs : List ℕ) × (collect w f s ≡ some xs)
  collect_total zero s r h = absurd (omega arith)
  collect_total (suc f) s r h = go (collect_total f) (next w s) refl (next-Steps s r)
    where
      go :
          ((s' : Decompressor)
            → IsReady s'
            → budget s' < f
            → (xs : List ℕ) × (collect w f s' ≡ some xs))
          → (r : Next) → next w s ≡ r
          → Steps (budget s) r
          → (xs : List ℕ) × (collect w (suc f) s ≡ some xs)
      go again (done s') e t = collect-done f s s' e
      go again panic e t = absurd t
      go again (yield x s') e (ready, less) =
          collect-yield f x s s' e (again s' ready (omega arith))
