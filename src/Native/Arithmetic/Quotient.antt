-- ===== src/Native/Arithmetic/Quotient.antt =====
-- The quotient is the division that rounds towards zero.
use native.Mathlib.Nat.{div-add-mod, mul-div_cancel_left, div-eq_of_lt, zero-div, mod-lt}
use wispy_vm.Native.Arithmetic.{quotient}
use wispy_vm.Prelude.{
  ℕ, ◌+◌, ◌-◌, ◌*◌, ◌/◌, ◌%◌, ◌^◌, ◌≤◌, ◌<◌, ◌≡◌, ◌≢◌, refl, sym, ap, ap₂, ◌∙◌, inl, inr, Bool,
  some, arith, ltb, ne→==, Bool-cases, ltb→lt,
}
use wispy_vm.Vm.Number.{is_negative, negate, magnitude, sub, with_sign, differ, div, rem}
use wispy_vm.Vm.ValueInner.{word, Is63Bit, from_number, to_number, from_i64}

sub_mod-div : (m n : ℕ) → 0 < n → (m - m % n) / n ≡ m / n
sub_mod-div m n h =
    let whole : m - m % n ≡ n * (m / n) = omega (arith, div-add-mod m n) in
    rw whole (mul-div_cancel_left (m / n) h)

untag : (x : ℕ) → Is63Bit x → to_number (from_number x) ≡ x
unfolding to_number from_number
untag x h = ground arith

-- What is left of a dividend after a part of its magnitude is taken off.
abbrev left_of : ℕ → ℕ → ℕ
left_of a r = (a + word - with_sign (is_negative a) r) % word

magnitude-63 : (a : ℕ) → Is63Bit a → magnitude a ≤ 2 ^ 62
magnitude-63 a h = ground arith

magnitude_pos : (b : ℕ) → Is63Bit b → b ≢ 0 → 0 < magnitude b
magnitude_pos b h n = ground arith

with_sign-Is63Bit : (s : Bool) (r : ℕ) → r < 2 ^ 62 → Is63Bit (with_sign s r)
unfolding negate
with_sign-Is63Bit s r h = ground arith

left_of-Is63Bit : (a r : ℕ) → Is63Bit a → r ≤ magnitude a → Is63Bit (left_of a r)
unfolding negate
left_of-Is63Bit a r h k = ground arith

magnitude-left_of :
    (a r : ℕ) → Is63Bit a → r ≤ magnitude a → magnitude (left_of a r) ≡ magnitude a - r
unfolding negate
magnitude-left_of a r h k = ground arith

is_negative-left_of :
    (a r : ℕ) → Is63Bit a → r < magnitude a → is_negative (left_of a r) ≡ is_negative a
unfolding negate
is_negative-left_of a r h k = ground arith

with_sign-zero : (s : Bool) → with_sign s 0 ≡ 0
unfolding negate
with_sign-zero s = ground arith

no_sign : (s t : Bool) {x y : ℕ} → x ≡ 0 → y ≡ 0 → with_sign s x ≡ with_sign t y
no_sign s t p q =
    ap (with_sign s) p ∙ with_sign-zero s ∙ sym (ap (with_sign t) q ∙ with_sign-zero t)

-- The quotient of what the remainder leaves is that of the dividend, with its sign.
left_of-div :
    (a n : ℕ) (s : Bool)
    → Is63Bit a
    → 0 < n
    → with_sign
        (differ (is_negative (left_of a (magnitude a % n))) s)
        (magnitude (left_of a (magnitude a % n)) / n)
      ≡ with_sign (differ (is_negative a) s) (magnitude a / n)
left_of-div a n s h p =
    let r = magnitude a % n in
    let small : r ≤ magnitude a = omega (arith, div-add-mod (magnitude a) n) in
    elim (Bool-cases (ltb r (magnitude a))) [
      | inl less ↦
          ap₂ (λ t q. with_sign (differ t s) q)
            (is_negative-left_of a r h (ltb→lt r (magnitude a) less))
            (ap (λ m. m / n) (magnitude-left_of a r h small) ∙ sub_mod-div (magnitude a) n p)
      | inr more ↦
          let all : magnitude a - r ≡ 0 = ground arith in
          let below : magnitude a < n = omega (arith, mod-lt (magnitude a) p) in
          let left : magnitude (left_of a r) / n ≡ 0 =
            ap (λ m. m / n) (magnitude-left_of a r h small ∙ all) ∙ zero-div n in
          no_sign (differ (is_negative (left_of a r)) s) (differ (is_negative a) s) left
            (div-eq_of_lt below)
    ]

rem-from_number :
    (a b : ℕ)
    → Is63Bit a
    → Is63Bit b
    → b ≢ 0
    → rem (from_number a) (from_number b)
      ≡ some (from_number (with_sign (is_negative a) (magnitude a % magnitude b)))
unfolding rem
rem-from_number a b h k n = rw (untag a h, untag b k, ne→== b 0 n) refl

div-from_number :
    (a b : ℕ)
    → Is63Bit a
    → Is63Bit b
    → b ≢ 0
    → div (from_number a) (from_number b)
      ≡ some (
          from_number
            (with_sign (differ (is_negative a) (is_negative b)) (magnitude a / magnitude b)))
unfolding div
div-from_number a b h k n = rw (untag a h, untag b k, ne→== b 0 n) refl

sub-from_number :
    (a r : ℕ)
    → Is63Bit a
    → Is63Bit r
    → sub (from_number a) (from_number r) ≡ from_number ((a + word - r) % word)
unfolding sub
sub-from_number a r h k = rw (untag a h, untag r k) refl

-- For tagged integers of 63 bits and a divisor that is not zero, the quotient is the division that
-- rounds towards zero.
pub quotient-div :
    (a b : ℕ)
    → Is63Bit a
    → Is63Bit b
    → b ≢ 0
    → quotient (from_i64 a) (from_i64 b) ≡ div (from_i64 a) (from_i64 b)
unfolding quotient from_i64
quotient-div a b h k n =
    let r = magnitude a % magnitude b in
    let pos = magnitude_pos b k n in
    let bound : r < 2 ^ 62 = omega (arith, mod-lt (magnitude a) pos, magnitude-63 b k) in
    let small : r ≤ magnitude a = omega (arith, div-add-mod (magnitude a) (magnitude b)) in
    rw
      (
        rem-from_number a b h k n,
        quotient,
        sub-from_number a (with_sign (is_negative a) r) h
            (with_sign-Is63Bit (is_negative a) r bound),
        div-from_number (left_of a r) b (left_of-Is63Bit a r h small) k n,
        div-from_number a b h k n,
      )
      (ap (λ q. some (from_number q)) (left_of-div a (magnitude b) (is_negative b) h pos))
