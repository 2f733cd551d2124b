-- ===== src/Vm/Machine/Integer.antt =====
-- vm/src/vm.rs and vm/src/code.rs: integers in bytecode, least digits first.
pub mod RoundTrip
use wispy_vm.Prelude.{
  ℕ, ◌+◌, ◌-◌, ◌*◌, ◌/◌, ◌%◌, ◌^◌, Option, none, some, List, [], ◌∷◌, ◌==◌, if◌then◌else◌,
}
use wispy_vm.Vm.ValueInner.{word, from_i64}
use wispy_vm.Vm.Value.{Number}

abbrev pub integer_base : ℕ
integer_base = 2 ^ 6

abbrev pub number_base : ℕ
number_base = 2 ^ 4

abbrev pub tag_base : ℕ
tag_base = 2 ^ 4

abbrev pub share_base : ℕ
share_base = 2 ^ 5 - 1

abbrev pub u128 : ℕ
u128 = 2 ^ 128

-- The `while` loop: the lowest bit of `x` says that another byte follows.
unfoldable pub tail_loop : List ℕ → (x y base : ℕ) → Option (ℕ × List ℕ)
tail_loop [] x y base = if x % 2 == 0 then some (y, []) else none
tail_loop (b ∷ input) x y base =
    let more = tail_loop input b ((y + b / 2 * base) % u128) (base * integer_base % u128) in
    if x % 2 == 0 then some (y, b ∷ input) else more

-- `none` is `BytecodeEnd`; otherwise the integer and the rest of the input.
unfoldable pub decode_integer_tail : List ℕ → (x base : ℕ) → Option (ℕ × List ℕ)
unfolding tail_loop
decode_integer_tail input x base = tail_loop input x (x / 2) base

-- Integers are even, or odd with the sign behind the lowest bit. `float` stands for the third
-- branch, which computes with `f64`.
unfoldable pub decode_number : (ℕ → Number) → ℕ → Number
decode_number float n =
    if n % 2 == 0
    then from_i64 (n / 2 % word)
    else if n / 2 % 2 == 0
    then from_i64 ((word - n / 4 % word) % word)
    else float (n / 4)
