-- ===== src/Vm/Number.antt =====
-- vm/src/number.rs over vm/src/value_inner/integer63.rs: 63-bit integers, tagged.
-- An i64 is its bit pattern, so sums, differences and products wrap at 2 ^ 64. The operations of the
-- source that can overflow 64 bits panic in a build with overflow checks.
use wispy_vm.Prelude.{
  ℕ, ◌+◌, ◌-◌, ◌*◌, ◌/◌, ◌%◌, ◌^◌, ◌≡◌, Bool, true, false, Option, none, some, arith, ltb, ◌==◌,
  if◌then◌else◌,
}
use wispy_vm.Vm.ValueInner.{
  word, Is63Bit, from_number, to_number, from_i64, is_cons, to_i64-from_i64,
}
use wispy_vm.Vm.Value.{Number}

abbrev pub is_negative : ℕ → Bool
is_negative x = ltb (2 ^ 63 - 1) x

unfoldable pub negate : ℕ → ℕ
negate x = (word - x) % word

-- The magnitude of a pattern; that of the least integer is 2 ^ 63.
abbrev pub magnitude : ℕ → ℕ
magnitude x = if is_negative x then word - x else x

unfoldable pub add : Number → Number → Number
unfolding from_number to_number
add a b = from_number ((to_number a + to_number b) % word)

unfoldable pub sub : Number → Number → Number
unfolding from_number to_number
sub a b = from_number ((to_number a + word - to_number b) % word)

unfoldable pub mul : Number → Number → Number
unfolding from_number to_number
mul a b = from_number (to_number a * to_number b % word)

abbrev pub with_sign : Bool → ℕ → ℕ
with_sign negative x = if negative then negate x else x

abbrev pub differ : Bool → Bool → Bool
differ true b = if b then false else true
differ false b = b

-- Division of i64 rounds towards zero, and panics (`none`) at a divisor of zero.
unfoldable pub div : Number → Number → Option Number
unfolding from_number to_number negate
div a b =
    let x = to_number a in
    let y = to_number b in
    if y == 0
    then none
    else some (
        from_number
          (with_sign (differ (is_negative x) (is_negative y)) (magnitude x / magnitude y)))

-- The remainder has the sign of the dividend.
unfoldable pub rem : Number → Number → Option Number
unfolding from_number to_number negate
rem a b =
    let x = to_number a in
    let y = to_number b in
    if y == 0
    then none
    else some (from_number (with_sign (is_negative x) (magnitude x % magnitude y)))

-- A number is a word with the tag bit.
pub is_cons-add : (a b : Number) → is_cons (add a b) ≡ false
unfolding add is_cons
is_cons-add a b = ground arith

-- The sum of two tagged integers of 63 bits is the tagged sum of their patterns, reduced to 63 bits.
pub add-from_i64 :
    (x y : ℕ) → Is63Bit x → Is63Bit y → add (from_i64 x) (from_i64 y) ≡ from_i64 ((x + y) % word)
unfolding add from_i64
add-from_i64 x y hx hy = ground (arith, to_i64-from_i64 x hx)

-- For tagged integers of 63 bits, subtraction undoes addition, wrapped or not.
pub sub-add :
    (x y : ℕ)
    → Is63Bit x
    → Is63Bit y
    → sub (add (from_i64 x) (from_i64 y)) (from_i64 y) ≡ from_i64 x
unfolding add sub from_i64
sub-add x y hx hy = ground arith
