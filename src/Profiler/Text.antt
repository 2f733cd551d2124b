-- ===== src/Profiler/Text.antt =====
-- What the profiler uses of the text functions of Rust: `str::split`, the decimal format and parse of
-- `u128`, and `BufRead::lines`.
pub mod Split
pub mod Number
use wispy_vm.Prelude.{
  ℕ, zero, suc, ◌+◌, ◌-◌, ◌*◌, ◌/◌, ◌%◌, ◌^◌, Bool, true, false, ◌&&◌, List, [], ◌∷◌, ◌++◌, ◌==◌,
  if◌then◌else◌, ltb, leb,
}
use wispy_vm.Profiler.{Chars, ParseIntError, empty, invalid_digit, pos_overflow}

-- Puts a character before the first piece of a split.
abbrev pub cons_first : ℕ → List Chars → List Chars
cons_first c [] = (c ∷ []) ∷ []
cons_first c (p ∷ ps) = (c ∷ p) ∷ ps

-- `str::split` at a character: the pieces between its occurrences, one at least.
unfoldable pub split : ℕ → Chars → List Chars
split s [] = [] ∷ []
split s (c ∷ cs) = if c == s then [] ∷ split s cs else cons_first c (split s cs)

-- The decimal digits of `n` before `rest`; with more fuel than `n` they are complete.
unfoldable pub digits : ℕ → ℕ → Chars → Chars
digits zero n rest = rest
digits (suc f) n rest =
    let more = digits f (n / 10) ((b'0' + n % 10) ∷ rest) in
    if ltb n 10 then (b'0' + n) ∷ rest else more

-- `Display for u128`
unfoldable pub show_number : ℕ → Chars
unfolding digits
show_number n = digits (n + 1) n []

abbrev pub is_digit : ℕ → Bool
is_digit c = leb b'0' c && leb c b'9'

pub data Parsed : Type 0 where
  number : ℕ → Parsed
  invalid : ParseIntError → Parsed

-- The loop of `u128::from_str`: it checks each digit, then the multiplication and the addition.
unfoldable pub parse_digits : ℕ → Chars → Parsed
parse_digits n [] = number n
parse_digits n (c ∷ cs) =
    let next = parse_digits (n * 10 + (c - b'0')) cs in
    if is_digit c
    then if ltb (n * 10 + (c - b'0')) (2 ^ 128) then next else invalid pos_overflow
    else invalid invalid_digit

-- `u128::from_str`: a plus sign may come before the digits.
unfoldable pub parse_number : Chars → Parsed
unfolding parse_digits
parse_number [] = invalid empty
parse_number (c ∷ []) = parse_digits 0 (c ∷ [])
parse_number (c ∷ d ∷ cs) =
    if c == b'+' then parse_digits 0 (d ∷ cs) else parse_digits 0 (c ∷ d ∷ cs)

-- Takes the carriage return off the end of a line.
unfoldable pub trim_return : Chars → Chars
trim_return [] = []
trim_return (c ∷ []) = if c == 13 then [] else c ∷ []
trim_return (c ∷ d ∷ cs) = c ∷ trim_return (d ∷ cs)

-- What `BufRead::lines` makes of the pieces between line feeds: the last is a line unless it is empty,
-- and only a line that a line feed ends loses its carriage return.
unfoldable pub lines_of : List Chars → List Chars
unfolding trim_return
lines_of [] = []
lines_of ([] ∷ []) = []
lines_of ((c ∷ cs) ∷ []) = (c ∷ cs) ∷ []
lines_of (p ∷ q ∷ ps) = trim_return p ∷ lines_of (q ∷ ps)

unfoldable pub lines : Chars → List Chars
unfolding lines_of split
lines text = lines_of (split 10 text)
