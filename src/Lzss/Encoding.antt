-- ===== src/Lzss/Encoding.antt =====
-- The format that lzss/src/compress.rs writes and lzss/src/decompress.rs reads, as a relation.
use wispy_vm.Prelude.{
  ℕ, zero, suc, ◌+◌, ◌-◌, ◌*◌, ◌≤◌, ◌<◌, ◌≡◌, refl, ap, ◌∙◌, List, [], ◌∷◌, ◌++◌, arith, length,
  get_or, take, drop, All,
}
use wispy_vm.Lzss.{max_length, max_window_size}

abbrev pub IsByte : ℕ → Type 0
IsByte x = x < 256

abbrev pub IsSevenBit : ℕ → Type 0
IsSevenBit x = x < 128

-- The history after the bytes of a list, newest first.
abbrev pub onto : List ℕ → List ℕ → List ℕ
onto [] hist = hist
onto (x ∷ xs) hist = onto xs (x ∷ hist)

-- The first `m` bytes of `todo` are what `m` reads at the distance `n` give, each read seeing the
-- bytes before it.
abbrev pub Copies : ℕ → ℕ → List ℕ → List ℕ → Type 0
Copies n zero todo hist = Unit {0}
Copies n (suc m) [] hist = ⊥
Copies n (suc m) (x ∷ todo) hist = (x ≡ get_or hist n 0) × Copies n m todo (x ∷ hist)

-- `Encodes w hist todo out`: behind the history `hist` the bytes `out` stand for `todo`.
pub data Encodes (w : ℕ) : List ℕ → List ℕ → List ℕ → Type 0 where
  end : {hist : List ℕ} → Encodes w hist [] []
  literal :
      {hist todo out : List ℕ} (x : ℕ)
      → IsSevenBit x
      → Encodes w (x ∷ hist) todo out
      → Encodes w hist (x ∷ todo) (x * 2 ∷ out)
  reference :
      {hist todo out : List ℕ} (n m : ℕ)
      → n < w
      → n < max_window_size
      → 0 < m
      → m < max_length
      → Copies n (suc m) todo hist
      → Encodes w (onto (take (suc m) todo) hist) (drop (suc m) todo) out
      → Encodes w hist todo ((m * 2 + 1) ∷ n ∷ out)

pub Copies-length : (n m : ℕ) (todo hist : List ℕ) → Copies n m todo hist → m ≤ length todo
Copies-length n zero todo hist c = omega arith
Copies-length n (suc m) [] hist c = absurd c
Copies-length n (suc m) (x ∷ todo) hist c = omega (arith, Copies-length n m todo (x ∷ hist) c.1)

-- One more byte that fits.
pub Copies-suc :
    (n m : ℕ) (todo hist : List ℕ)
    → m < length todo
    → Copies n m todo hist
    → get_or todo m 0 ≡ get_or (onto (take m todo) hist) n 0
    → Copies n (suc m) todo hist
Copies-suc n m [] hist h c e = absurd (omega arith)
Copies-suc n zero (x ∷ todo) hist h c e = (e, tt)
Copies-suc n (suc m) (x ∷ todo) hist h c e =
    (c.0, Copies-suc n m todo (x ∷ hist) (omega arith) c.1 e)

pub onto-append : (xs ys hist : List ℕ) → onto (xs ++ ys) hist ≡ onto ys (onto xs hist)
onto-append [] ys hist = refl
onto-append (x ∷ xs) ys hist = onto-append xs ys (x ∷ hist)

-- Past the bytes that came after the first `j`, the history is the one after those `j`.
pub get_or-onto :
    (look hist : List ℕ) (j i : ℕ)
    → j ≤ length look
    → get_or (onto look hist) (length look + i - j) 0 ≡ get_or (onto (take j look) hist) i 0
get_or-onto [] hist zero i h = ap (λ k. get_or hist k 0) (omega arith)
get_or-onto [] hist (suc j) i h = absurd (omega arith)
get_or-onto (x ∷ look) hist zero i h =
    ap (λ k. get_or (onto look (x ∷ hist)) k 0) (omega arith)
    ∙ get_or-onto look (x ∷ hist) zero (suc i) (omega arith)
get_or-onto (x ∷ look) hist (suc j) i h =
    ap (λ k. get_or (onto look (x ∷ hist)) k 0) (omega arith)
    ∙ get_or-onto look (x ∷ hist) j i (omega arith)

pub get_or-onto_newest :
    (look hist : List ℕ) (k : ℕ)
    → k < length look
    → get_or (onto look hist) (length look - 1 - k) 0 ≡ get_or look k 0
get_or-onto_newest [] hist k h = absurd (omega arith)
get_or-onto_newest (x ∷ look) hist zero h =
    ap (λ k. get_or (onto look (x ∷ hist)) k 0) (omega arith)
    ∙ get_or-onto look (x ∷ hist) zero 0 (omega arith)
get_or-onto_newest (x ∷ look) hist (suc k) h =
    ap (λ j. get_or (onto look (x ∷ hist)) j 0) (omega arith)
    ∙ get_or-onto_newest look (x ∷ hist) k (omega arith)

pub take-append : (xs ys : List ℕ) (j : ℕ) → j ≤ length xs → take j (xs ++ ys) ≡ take j xs
take-append xs ys zero h = refl
take-append [] ys (suc j) h = absurd (omega arith)
take-append (x ∷ xs) ys (suc j) h = ap (λ t. x ∷ t) (take-append xs ys j (omega arith))

pub length-drop : (xs : List ℕ) (j : ℕ) → length (drop j xs) ≡ length xs - j
length-drop xs zero = omega arith
length-drop [] (suc j) = omega arith
length-drop (x ∷ xs) (suc j) = omega (arith, length-drop xs j)

-- Each byte of an encoding stands for at most 128 bytes.
pub Encodes-length :
    {w : ℕ} {hist todo out : List ℕ}
    → Encodes w hist todo out
    → (length todo ≤ 128 * length out) × (length out ≤ length todo)
Encodes-length end = omega arith
Encodes-length (literal x hx r) = omega (arith, Encodes-length r)
Encodes-length (reference {todo} n m hw hn pos hm c r) =
    omega (arith, Encodes-length r, length-drop todo (suc m), Copies-length n (suc m) todo _ c)

pub drop-append : (xs ys : List ℕ) (j : ℕ) → j ≤ length xs → drop j (xs ++ ys) ≡ drop j xs ++ ys
drop-append xs ys zero h = refl
drop-append [] ys (suc j) h = absurd (omega arith)
drop-append (x ∷ xs) ys (suc j) h = drop-append xs ys j (omega arith)

pub onto-take-drop :
    (xs hist : List ℕ) (j : ℕ) → onto (drop j xs) (onto (take j xs) hist) ≡ onto xs hist
onto-take-drop xs hist zero = refl
onto-take-drop [] hist (suc j) = refl
onto-take-drop (x ∷ xs) hist (suc j) = onto-take-drop xs (x ∷ hist) j

pub All-drop : (P : ℕ → Type 0) (xs : List ℕ) (j : ℕ) → All P xs → All P (drop j xs)
All-drop P xs zero h = h
All-drop P [] (suc j) h = tt
All-drop P (x ∷ xs) (suc j) h = All-drop P xs j h.1
