-- ===== src/Vm/Machine/Decode/Sequence.antt =====
-- A sequence of numbers in bytecode is pushed by the decoder of vm/src/vm.rs in its order.
use wispy_vm.Prelude.{
  ℕ, ◌/◌, ◌≤◌, ◌≡◌, refl, ap, ◌∙◌, List, [], ◌∷◌, ◌++◌, length, length-append, All, arith,
}
use wispy_vm.Vm.ValueInner.{Is63Bit, from_i64}
use wispy_vm.Vm.Value.{Number}
use wispy_vm.Vm.Memory.{Memory, M, Outcome, ok, err, stuck, and_then, ◌>>◌, pure}
use wispy_vm.Vm.Memory.Stack.{push}
use wispy_vm.Vm.Machine.Integer.{number_base}
use wispy_vm.Vm.Machine.Integer.RoundTrip.{encode_integer_tail}
use wispy_vm.Vm.Machine.Decode.{decode_loop}
use wispy_vm.Vm.Machine.Decode.Numbers.{encode_number, number_head, decode_rib-number}
use wispy_vm.Vm.Machine.Decode.Fuel.{decode_loop_fuel}

-- What the compiler writes for the integers, one after the other.
unfoldable pub encode_numbers : List ℕ → List ℕ
encode_numbers [] = []
encode_numbers (x ∷ xs) =
    number_head (encode_number x)
    ∷ (encode_integer_tail (encode_number x / number_base) ++ encode_numbers xs)

unfoldable pub push_numbers : List ℕ → M (Unit {0})
push_numbers [] = pure tt
push_numbers (x ∷ xs) = push (from_i64 x) >> push_numbers xs

then-decode :
    (float : ℕ → Number) (fuel : ℕ) (rest xs : List ℕ) (out : Outcome (Unit {0}))
    → length rest ≤ fuel
    → ((m : Memory) → decode_loop float (length rest) rest m ≡ push_numbers xs m)
    → and_then (and_then out (λ _. pure rest)) (decode_loop float fuel)
      ≡ and_then out (λ _. push_numbers xs)
then-decode float fuel rest xs (ok a m) h ih =
    decode_loop_fuel float fuel (length rest) rest m h (omega arith) ∙ ih m
then-decode float fuel rest xs (err e m) h ih = refl
then-decode float fuel rest xs stuck h ih = refl

-- The bytes that the compiler writes for integers of 63 bits, one after the other, make the decoder
-- push these integers in their order, and it ends behind the last.
pub decode_loop-encode_numbers :
    (float : ℕ → Number) (xs : List ℕ) (m : Memory)
    → All Is63Bit xs
    → decode_loop float (length (encode_numbers xs)) (encode_numbers xs) m ≡ push_numbers xs m
unfolding encode_numbers push_numbers decode_loop
decode_loop-encode_numbers float [] m h = refl
decode_loop-encode_numbers float (x ∷ xs) m (hx, hxs) =
    let tail = encode_integer_tail (encode_number x / number_base) in
    let rest = encode_numbers xs in
    ap (λ out. and_then out (decode_loop float (length (tail ++ rest))))
      (decode_rib-number float x rest m hx)
    ∙ then-decode float (length (tail ++ rest)) rest xs (push (from_i64 x) m)
        (omega (arith, length-append tail rest)) (λ m'. decode_loop-encode_numbers float xs m' hxs)
