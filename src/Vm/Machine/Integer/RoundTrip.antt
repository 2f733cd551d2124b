-- ===== src/Vm/Machine/Integer/RoundTrip.antt =====
-- The integers that compile.scm writes into bytecode are those that vm/src/vm.rs reads back.
use wispy_vm.Prelude.{
  ℕ, zero, suc, ◌+◌, ◌*◌, ◌/◌, ◌%◌, ◌≤◌, ◌<◌, ◌≡◌, refl, sym, ap, subst, ◌∙◌, Bool, true, false,
  some, List, [], ◌∷◌, ◌++◌, ◌==◌, if◌then◌else◌, arith,
}
use native.Mathlib.Nat.{mod-eq_of_lt, mod-add-div'}
use native.Mathlib.Decide.{ℕ_discrete}
use wispy_vm.Vm.Machine.Integer.{integer_base, u128, tail_loop, decode_integer_tail}

unfoldable pub encode_integer_part : (integer base : ℕ) → Bool → ℕ
encode_integer_part integer base bit = (if bit then 0 else 1) + 2 * (integer % base)

-- As many rounds as the integer are enough.
unfoldable pub tail_rounds : (rounds x : ℕ) → List ℕ
unfolding encode_integer_part
tail_rounds zero x = []
tail_rounds (suc rounds) x =
    let rest = tail_rounds rounds (x / integer_base) in
    if x == 0 then [] else encode_integer_part x integer_base (x / integer_base == 0) ∷ rest

unfoldable pub encode_integer_tail : ℕ → List ℕ
unfolding tail_rounds
encode_integer_tail x = tail_rounds x x

-- With the last byte read, the loop ends.
tail_loop-end :
    (rest : List ℕ) (x y base : ℕ) → x % 2 ≡ 0 → tail_loop rest x y base ≡ some (y, rest)
unfolding tail_loop
tail_loop-end [] x y base e = rw e
tail_loop-end (b ∷ rest) x y base e = rw e

tail_rounds-zero : (rounds : ℕ) → tail_rounds rounds 0 ≡ []
unfolding tail_rounds
tail_rounds-zero zero = refl
tail_rounds-zero (suc rounds) = refl

part-half : (x base : ℕ) (bit : Bool) → encode_integer_part x base bit / 2 ≡ x % base
unfolding encode_integer_part
part-half x base true = omega arith
part-half x base false = omega arith

part-bit : (x base y : ℕ) → encode_integer_part x base (y == 0) % 2 ≡ (if y == 0 then 0 else 1)
unfolding encode_integer_part
part-bit x base y = ground arith

product_ge : (q n : ℕ) → 0 < q → n ≤ q * n
product_ge zero n h = absurd (omega arith)
product_ge (suc q) n h = omega arith

split_product : (q d y base : ℕ) → y + d * base + q * (base * 64) ≡ y + (64 * q + d) * base
split_product q d y base = omega arith

split_digit : (r y base : ℕ) → y + r % 64 * base + r / 64 * (base * 64) ≡ y + r * base
split_digit r y base =
    let whole : 64 * (r / 64) + r % 64 ≡ r = omega arith in
    split_product (r / 64) (r % 64) y base ∙ ap (λ n. y + n * base) whole

-- The base of the next digit does not wrap around where there is a next digit.
next_base :
    (r y base : ℕ) → y + r * base < u128 → r / 64 * (base * 64 % u128) ≡ r / 64 * (base * 64)
next_base r y base h = elim (ℕ_discrete (r / 64) 0) [
  | yes e ↦ rw e (omega arith)
  | no ne ↦
      let small : base * 64 ≤ r / 64 * (base * 64) =
        product_ge (r / 64) (base * 64) (omega (arith, ne)) in
      let below : base * 64 < u128 = omega (arith, small, split_digit r y base) in
      rw (mod-eq_of_lt below)
]

next_y : (r y base : ℕ) → y + r * base < u128 → (y + r % 64 * base) % u128 ≡ y + r % 64 * base
next_y r y base h = mod-eq_of_lt (omega (arith, split_digit r y base))

tail_rounds-suc :
    (rounds r : ℕ)
    → tail_rounds (suc rounds) (suc r)
      ≡ encode_integer_part (suc r) 64 (suc r / 64 == 0) ∷ tail_rounds rounds (suc r / 64)
unfolding tail_rounds
tail_rounds-suc rounds r = let pos : (suc r == 0) ≡ false = ground arith in rw pos

tail_loop-more :
    (b : ℕ) (input : List ℕ) (x y base : ℕ)
    → x % 2 ≡ 1
    → tail_loop (b ∷ input) x y base
      ≡ tail_loop input b ((y + b / 2 * base) % u128) (base * 64 % u128)
unfolding tail_loop
tail_loop-more b input x y base e = rw e

-- The digits that were not read are those that the rest of the loop adds.
tail_loop-rounds :
    (rest : List ℕ) (rounds r x y base : ℕ)
    → r ≤ rounds
    → x % 2 ≡ (if r == 0 then 0 else 1)
    → y + r * base < u128
    → tail_loop (tail_rounds rounds r ++ rest) x y base ≡ some (y + r * base, rest)
tail_loop-rounds rest rounds zero x y base hr e h =
    let none_left : tail_rounds rounds 0 ≡ [] = tail_rounds-zero rounds in
    rw (none_left, tail_loop-end rest x y base e) (ap (λ n. some (n, rest)) (omega arith))
tail_loop-rounds rest zero (suc r) x y base hr e h = absurd (omega arith)
tail_loop-rounds rest (suc rounds) (suc r) x y base hr e h =
    let b = encode_integer_part (suc r) 64 (suc r / 64 == 0) in
    let y' = (y + b / 2 * base) % u128 in
    let base' = base * 64 % u128 in
    let digit : b / 2 ≡ suc r % 64 = part-half (suc r) 64 (suc r / 64 == 0) in
    let value : y' + suc r / 64 * base' ≡ y + suc r * base =
      rw (digit, next_y (suc r) y base h)
        (ap (λ n. y + suc r % 64 * base + n) (next_base (suc r) y base h)
          ∙ split_digit (suc r) y base) in
    let more =
      tail_loop-rounds rest rounds (suc r / 64) b y' base' (omega arith)
        (part-bit (suc r) 64 (suc r / 64)) (subst (λ n. n < u128) (sym value) h) in
    rw (tail_rounds-suc rounds r)
      (tail_loop-more b _ x y base (e ∙ ground arith) ∙ more ∙ ap (λ n. some (n, rest)) value)

-- For an integer below 2 ^ 128 and any base, the bytes that the compiler writes, the head and its
-- tail, are read back as the integer, and what follows them is left.
pub decode_integer_tail-encode :
    (integer base : ℕ) (rest : List ℕ)
    → integer < u128
    → decode_integer_tail
        (encode_integer_tail (integer / base) ++ rest)
        (encode_integer_part integer base (integer / base == 0))
        base
      ≡ some (integer, rest)
unfolding decode_integer_tail encode_integer_tail
decode_integer_tail-encode integer base rest h =
    let x = encode_integer_part integer base (integer / base == 0) in
    let digit : x / 2 ≡ integer % base = part-half integer base (integer / base == 0) in
    let value : x / 2 + integer / base * base ≡ integer = rw digit (mod-add-div' integer base) in
    tail_loop-rounds rest (integer / base) (integer / base) x (x / 2) base (omega arith)
      (part-bit integer base (integer / base)) (subst (λ n. n < u128) (sym value) h)
    ∙ ap (λ n. some (n, rest)) value
