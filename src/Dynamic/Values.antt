-- ===== src/Dynamic/Values.antt =====
-- dynamic/src/scheme_value.rs: values of the host types in Scheme. The conversions of floating-point
-- numbers are left out.
pub mod RoundTrip
use wispy_vm.Prelude.{
  ℕ, zero, suc, ◌+◌, ◌-◌, ◌%◌, ◌^◌, ◌≤◌, Bool, true, false, ◌&&◌, ◌||◌, Option, none, some, List,
  [], ◌∷◌, ◌++◌, ltb, leb, if◌then◌else◌,
}
use wispy_vm.Vm.Cons
use wispy_vm.Vm.Cons.{Cons}
use wispy_vm.Vm.Memory.{M, Outcome, ok, stuck, and_then, ◌>>=◌, pure, car, cdr}
use wispy_vm.Vm.Memory.Gc.{allocate}
use wispy_vm.Vm.Memory.Stack.{boolean, null, cons}
use wispy_vm.Vm.Tags.{string_type}
use wispy_vm.Vm.Value
use wispy_vm.Vm.Value.{Value}
use wispy_vm.Vm.ValueInner.{from_i64, to_i64}

-- `SchemeValue for bool`
unfoldable pub bool_from_scheme : Value → M (Option Bool)
bool_from_scheme v = do f ← boolean false; pure (some (Value.eq v f))

unfoldable pub bool_into_scheme : Bool → M Value
bool_into_scheme b = boolean b

-- The integer types of the macro, of a host with 64-bit words.
pub data IntegerType : Type 0 where
  i8 u8 i16 u16 i32 u32 i64 u64 isize usize : IntegerType

abbrev pub bits : IntegerType → ℕ
bits i8 = 8
bits u8 = 8
bits i16 = 16
bits u16 = 16
bits i32 = 32
bits u32 = 32
bits i64 = 64
bits u64 = 64
bits isize = 64
bits usize = 64

abbrev pub is_signed : IntegerType → Bool
is_signed i8 = true
is_signed i16 = true
is_signed i32 = true
is_signed i64 = true
is_signed isize = true
is_signed _ = false

-- `as` to such a type keeps the low bits, and `as i64` copies the sign bit of a type with a sign.
unfoldable pub truncate : IntegerType → ℕ → ℕ
truncate t n = n % 2 ^ bits t

unfoldable pub extend : IntegerType → ℕ → ℕ
extend t n = if is_signed t && leb (2 ^ (bits t - 1)) n then n + (2 ^ 64 - 2 ^ bits t) else n

unfoldable pub integer_from_scheme : IntegerType → Value → Option ℕ
unfolding truncate
integer_from_scheme t v = some (truncate t (to_i64 v))

unfoldable pub integer_into_scheme : IntegerType → ℕ → Value
unfolding extend
integer_into_scheme t n = from_i64 (extend t n)

-- `char::from_u32` of the low 32 bits.
unfoldable pub from_u32 : ℕ → Option ℕ
from_u32 n =
    let code = n % 2 ^ 32 in
    if ltb code 55296 || (leb 57344 code && ltb code 1114112) then some code else none

-- The `while` loop of `from_scheme` of a string, behind the characters that it read.
unfoldable pub string_loop : ℕ → Cons → List ℕ → M (Option (List ℕ))
string_loop zero list string m = stuck
string_loop (suc fuel) list string m = and_then (null m) (λ nil m'.
    let more = and_then (car list m') (λ v m''. elim (from_u32 (to_i64 v)) [
      | none ↦ ok none m''
      | some c ↦ and_then (cdr list m'') (λ rest. string_loop fuel rest (string ++ c ∷ []))
    ]) in
    if Cons.eq list nil then ok (some string) m' else more)

-- The capacity of the string changes nothing, but its read can fail.
unfoldable pub string_from_scheme : ℕ → Value → M (Option (List ℕ))
unfolding string_loop
string_from_scheme fuel v = do capacity ← car v; list ← cdr v; string_loop fuel list []

-- The loop of `into_scheme` of a string, over the reversed characters: the last is consed first.
unfoldable pub string_list : List ℕ → M (ℕ × Cons)
string_list [] = do nil ← null; pure (0, nil)
string_list (c ∷ string) = do
  (n, list) ← string_list string
  list' ← cons (from_i64 c) list
  pure (n + 1, list')

unfoldable pub string_into_scheme : List ℕ → M Value
unfolding string_list
string_into_scheme string = do
  (n, list) ← string_list string
  allocate (from_i64 n) (Cons.set_tag list string_type)
