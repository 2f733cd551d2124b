-- ===== src/Vm/ValueInner.antt =====
-- vm/src/value_inner/integer63.rs: values in one word, with the lowest bit set for a number.
-- A word is a number below 2 ^ 64. An i64 is its bit pattern, of which `signed` is the meaning.
use wispy_vm.Prelude.{
  ℕ, ◌+◌, ◌*◌, ◌/◌, ◌%◌, ◌^◌, ◌<◌, ◌≡◌, Bool, true, false, arith, ltb, ◌==◌, if◌then◌else◌,
}

abbrev pub word : ℕ
word = 2 ^ 64

abbrev pub IsWord : ℕ → Type 0
IsWord x = x < word

unfoldable pub box_cons : ℕ → ℕ
box_cons cons = cons * 2 % word

unfoldable pub unbox_cons : ℕ → ℕ
unbox_cons cons = cons / 2

unfoldable pub is_cons : ℕ → Bool
is_cons value = value % 2 == 0

-- `(number << 1) | 1`
unfoldable pub from_number : ℕ → ℕ
from_number number = number * 2 % word + 1

-- `number >> 1` copies the sign bit.
unfoldable pub to_number : ℕ → ℕ
to_number number = if ltb number (2 ^ 63) then number / 2 else number / 2 + 2 ^ 63

unfoldable pub from_i64 : ℕ → ℕ
unfolding from_number
from_i64 number = from_number number

unfoldable pub to_i64 : ℕ → ℕ
unfolding to_number
to_i64 number = to_number number

-- The patterns of the integers from -(2 ^ 62) to 2 ^ 62 - 1.
abbrev pub Is63Bit : ℕ → Type 0
Is63Bit x = IsWord x × ((x + 2 ^ 62) % word < 2 ^ 63)

-- An integer of 63 bits survives the tagging; a boxed cons below 2 ^ 63 survives the boxing; and
-- the lowest bit tells the two apart.
pub to_i64-from_i64 : (x : ℕ) → Is63Bit x → to_i64 (from_i64 x) ≡ x
unfolding to_i64 from_i64
to_i64-from_i64 x h = ground arith

pub unbox_cons-box_cons : (x : ℕ) → x < 2 ^ 63 → unbox_cons (box_cons x) ≡ x
unfolding unbox_cons box_cons
unbox_cons-box_cons x h = omega arith

pub is_cons-box_cons : (x : ℕ) → is_cons (box_cons x) ≡ true
unfolding is_cons box_cons
is_cons-box_cons x = ground arith

pub is_cons-from_i64 : (x : ℕ) → is_cons (from_i64 x) ≡ false
unfolding is_cons from_i64
is_cons-from_i64 x = ground arith
