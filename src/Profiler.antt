-- ===== src/Profiler.antt =====
-- The crate profiler: profiler/src/error.rs and the separators of lib.rs here, the text it reads and
-- writes, its records, and its analyses in the modules below.
pub mod Order
pub mod Text
pub mod Stack
pub mod Record
pub mod Stream
pub mod Duration
pub mod Flamegraph
pub mod Writer
pub mod StackProfiler
pub mod Command
mod Tests
use wispy_vm.Prelude.{ℕ, List, Option, none, some}

-- Text is the list of its code points.
abbrev pub Chars : Type 0
Chars = List ℕ

-- The kinds of `core::num::ParseIntError` that parsing a `u128` gives.
pub data ParseIntError : Type 0 where
  empty invalid_digit pos_overflow : ParseIntError

-- `enum Error`
pub data Error : Type 0 where
  io : Chars → Error
  missing_call_record missing_procedure_operation missing_stack missing_time : Error
  parse_int : ParseIntError → Error
  unknown_record_type : Error

pub data Result {ℓ} (A : Type ℓ) : Type ℓ where
  ok : A → Result A
  err : Error → Result A

infixl 5 ◌>>=◌
abbrev pub ◌>>=◌ {ℓ κ} : {A : Type ℓ} {B : Type κ} → Result A → (A → Result B) → Result B
ok a >>= f = f a
err e >>= f = err e

-- `Option::ok_or`
abbrev pub ok_or {ℓ} : {A : Type ℓ} → Error → Option A → Result A
ok_or e none = err e
ok_or e (some a) = ok a

abbrev pub column_separator : ℕ
column_separator = 9

abbrev pub frame_separator : ℕ
frame_separator = b';'
