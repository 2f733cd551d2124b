-- ===== src/Dynamic/Values/RoundTrip.antt =====
-- Values that are handed to Scheme and back.
use wispy_vm.Dynamic.Values.{
  IntegerType, i8, u8, i16, u16, i32, u32, i64, u64, isize, usize, bits, extend, truncate,
  integer_from_scheme, integer_into_scheme, bool_from_scheme, bool_into_scheme,
}
use wispy_vm.Prelude.{ℕ, ◌^◌, ◌<◌, ◌≡◌, refl, Bool, true, false, not, some, arith, ap}
use wispy_vm.Vm.Cons.{Cons}
use wispy_vm.Vm.Memory.{Memory, ok, ◌>>=◌}
use wispy_vm.Vm.Memory.Stack.{boolean}
use wispy_vm.Vm.Value
use wispy_vm.Vm.Value.{Value}
use wispy_vm.Vm.ValueInner.{Is63Bit, to_i64-from_i64}

truncate-extend : (t : IntegerType) (n : ℕ) → n < 2 ^ bits t → truncate t (extend t n) ≡ n
unfolding truncate extend
truncate-extend i8 n h = ground arith
truncate-extend u8 n h = ground arith
truncate-extend i16 n h = ground arith
truncate-extend u16 n h = ground arith
truncate-extend i32 n h = ground arith
truncate-extend u32 n h = ground arith
truncate-extend i64 n h = ground arith
truncate-extend u64 n h = ground arith
truncate-extend isize n h = ground arith
truncate-extend usize n h = ground arith

-- An integer of a host type that has 63 bits as an `i64` comes back from Scheme as it was.
pub integer_from_scheme-integer_into_scheme :
    (t : IntegerType) (n : ℕ)
    → n < 2 ^ bits t
    → Is63Bit (extend t n)
    → integer_from_scheme t (integer_into_scheme t n) ≡ some n
unfolding integer_from_scheme integer_into_scheme
integer_from_scheme-integer_into_scheme t n h k =
    rw (to_i64-from_i64 (extend t n) k) (ap some (truncate-extend t n h))

-- The types of at most 32 bits have 63 bits.
pub extend-Is63Bit : (t : IntegerType) (n : ℕ) → bits t < 64 → n < 2 ^ bits t → Is63Bit (extend t n)
unfolding extend
extend-Is63Bit i8 n k h = ground arith
extend-Is63Bit u8 n k h = ground arith
extend-Is63Bit i16 n k h = ground arith
extend-Is63Bit u16 n k h = ground arith
extend-Is63Bit i32 n k h = ground arith
extend-Is63Bit u32 n k h = ground arith
extend-Is63Bit i64 n k h = absurd (omega arith)
extend-Is63Bit u64 n k h = absurd (omega arith)
extend-Is63Bit isize n k h = absurd (omega arith)
extend-Is63Bit usize n k h = absurd (omega arith)

-- A Boolean that is handed to Scheme comes back negated, where true and false are different values.
pub bool_from_scheme-bool_into_scheme :
    (b : Bool) (t f : Cons) (m : Memory)
    → boolean true m ≡ ok t m
    → boolean false m ≡ ok f m
    → Value.eq t f ≡ false
    → Value.eq f f ≡ true
    → (bool_into_scheme b >>= bool_from_scheme) m ≡ ok (some (not b)) m
unfolding bool_from_scheme bool_into_scheme
bool_from_scheme-bool_into_scheme true t f m p q d e = rw (p, q, d) refl
bool_from_scheme-bool_into_scheme false t f m p q d e = rw (q, q, e) refl
