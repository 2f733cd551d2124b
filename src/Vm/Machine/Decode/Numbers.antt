-- ===== src/Vm/Machine/Decode/Numbers.antt =====
-- A number that compile.scm writes into bytecode is pushed by the decoder of vm/src/vm.rs.
use wispy_vm.Prelude.{
  ℕ, ◌+◌, ◌-◌, ◌*◌, ◌/◌, ◌%◌, ◌^◌, ◌≤◌, ◌<◌, ◌≡◌, ap, ◌∙◌, true, false, List, ◌++◌, ◌==◌, ltb,
  if◌then◌else◌, arith, Bool-cases, inl, inr,
}
use wispy_vm.Vm.ValueInner.{word, Is63Bit, from_i64}
use wispy_vm.Vm.Value.{Number}
use wispy_vm.Vm.Memory.{Memory, ◌>>◌, pure}
use wispy_vm.Vm.Memory.Stack.{push}
use wispy_vm.Vm.Machine.Integer.{number_base, u128, decode_number}
use wispy_vm.Vm.Machine.Integer.RoundTrip.{
  encode_integer_part, encode_integer_tail, decode_integer_tail-encode,
}
use wispy_vm.Vm.Machine.Decode.{decode_rib}

-- `encode-number` of an exact integer, which is given by its pattern.
unfoldable pub encode_number : ℕ → ℕ
encode_number x = if ltb x (2 ^ 63) then 2 * x else 1 + 4 * (word - x)

decode_number-even :
    (float : ℕ → Number) (n : ℕ) → decode_number float (2 * n) ≡ from_i64 (n % word)
unfolding decode_number
decode_number-even float n =
    let even : ((2 * n) % 2 == 0) ≡ true = ground arith in
    let half : (2 * n) / 2 ≡ n = omega arith in rw (even, half)

decode_number-odd :
    (float : ℕ → Number) (n : ℕ)
    → decode_number float (1 + 4 * n) ≡ from_i64 ((word - n % word) % word)
unfolding decode_number
decode_number-odd float n =
    let odd : ((1 + 4 * n) % 2 == 0) ≡ false = ground arith in
    let integer : ((1 + 4 * n) / 2 % 2 == 0) ≡ true = ground arith in
    let quarter : (1 + 4 * n) / 4 ≡ n = omega arith in rw (odd, integer, quarter)

-- An integer of 63 bits is the one that was encoded.
pub decode_number-encode_number :
    (float : ℕ → Number) (x : ℕ) → Is63Bit x → decode_number float (encode_number x) ≡ from_i64 x
unfolding encode_number
decode_number-encode_number float x h = elim (Bool-cases (ltb x (2 ^ 63))) [
  | inl e ↦ rw e (decode_number-even float x ∙ ap from_i64 (omega (arith, h)))
  | inr e ↦
      let below : x < word = h.0 in
      let above : 2 ^ 63 ≤ x = ground arith in
      rw e (decode_number-odd float (word - x) ∙ ap from_i64 (omega arith))
]

encode_number-small : (x : ℕ) → Is63Bit x → encode_number x < u128
unfolding encode_number
encode_number-small x h = ground arith

abbrev pub number_head : ℕ → ℕ
number_head n = 3 + 4 * encode_integer_part n number_base (n / number_base == 0)

-- The bytes that the compiler writes for an integer of 63 bits are one round of the decoder, which
-- pushes the integer and leaves what follows them.
pub decode_rib-number :
    (float : ℕ → Number) (x : ℕ) (rest : List ℕ) (m : Memory)
    → Is63Bit x
    → decode_rib float
        (number_head (encode_number x))
        (encode_integer_tail (encode_number x / number_base) ++ rest)
        m
      ≡ (push (from_i64 x) >> pure rest) m
unfolding decode_rib
decode_rib-number float x rest m h =
    let n = encode_number x in
    let head = encode_integer_part n number_base (n / number_base == 0) in
    let odd : ((3 + 4 * head) % 2 == 0) ≡ false = ground arith in
    let number : ((3 + 4 * head) / 2 % 2 == 0) ≡ false = ground arith in
    let same : (3 + 4 * head) / 4 ≡ head = omega arith in
    rw (
      odd,
      number,
      same,
      decode_integer_tail-encode n number_base rest (encode_number-small x h),
      decode_number-encode_number float x h,
    )
