-- ===== src/Wispy/Loads.antt =====
-- wispy/src/main.rs: the `(load "path")` lines of a source, which are replaced by the files. A text is a
-- list of code points. The paths of the platform and the files are parameters.
pub mod Expansion
pub mod Fuel
pub mod Cycles
mod Tests
use wispy_vm.Prelude.{
  ℕ, zero, suc, Bool, true, false, ◌&&◌, ◌||◌, Option, none, some, List, [], ◌∷◌, ◌++◌, reverse,
  leb, ◌==◌, if◌then◌else◌,
}
use wispy_vm.Profiler.{Chars}
use wispy_vm.Profiler.Text.{lines}

-- Paths `P` and the files that can be read as text.
pub record Disk (P : Type 0) : Type 0 where
  pub path_of : Chars → P
  pub parent : P → Option P
  pub join : P → Chars → P
  pub read_to_string : P → Option Chars

-- `char::is_whitespace`
unfoldable pub is_whitespace : ℕ → Bool
is_whitespace c =
    (leb 9 c && leb c 13)
    || c == 0x20
    || c == 0x85
    || c == 0xa0
    || c == 0x1680
    || (leb 0x2000 c && leb c 0x200a)
    || c == 0x2028
    || c == 0x2029
    || c == 0x202f
    || c == 0x205f
    || c == 0x3000

unfoldable pub trim_start : Chars → Chars
unfolding is_whitespace
trim_start [] = []
trim_start (c ∷ cs) = if is_whitespace c then trim_start cs else c ∷ cs

-- `str::trim`
unfoldable pub trim : Chars → Chars
unfolding trim_start
trim cs = reverse (trim_start (reverse (trim_start cs)))

-- `str::starts_with`
unfoldable pub starts_with : Chars → Chars → Bool
starts_with [] cs = true
starts_with (p ∷ prefix) [] = false
starts_with (p ∷ prefix) (c ∷ cs) = p == c && starts_with prefix cs

abbrev pub quote : ℕ
quote = 34

-- What stands before the first quote, and after it.
unfoldable pub split_quote : Chars → Option (Chars × Chars)
split_quote [] = none
split_quote (c ∷ cs) =
    let rest : Option (Chars × Chars) = elim (split_quote cs) [
      | none ↦ none
      | some (before, after) ↦ some (c ∷ before, after)
    ] in
    if c == quote then some ([], cs) else rest

abbrev pub load_prefix : Chars
load_prefix = b'(' ∷ b'l' ∷ b'o' ∷ b'a' ∷ b'd' ∷ b' ' ∷ []

-- The text between the first two quotes.
unfoldable pub quoted : Chars → Option Chars
unfolding split_quote
quoted cs = elim (split_quote cs) [
  | none ↦ none
  | some (_, after) ↦ elim (split_quote after) [ none ↦ none | some (inside, _) ↦ some inside ]
]

-- `load_path`, where the line has the form of a load.
unfoldable pub load_path : Chars → Option Chars
unfolding trim starts_with quoted
load_path line =
    let trimmed = trim line in if starts_with load_prefix trimmed then quoted trimmed else none

abbrev pub new_line : Chars
new_line = 10 ∷ []

module _ {P : Type 0} (disk : Disk P) where
  unfoldable pub base_dir : P → P
  base_dir base_path = elim (disk.parent base_path) [ none ↦ disk.path_of (b'.' ∷ []) | some p ↦ p ]

  -- The loop over the candidates: the first that can be read is taken, and `none` is no candidate.
  unfoldable pub first_readable : List P → Option (P × Chars)
  first_readable [] = none
  first_readable (p ∷ candidates) = elim (disk.read_to_string p) [
    | none ↦ first_readable candidates
    | some contents ↦ some (p, contents)
  ]

  unfoldable pub loaded_file : P → Chars → Option (P × Chars)
  unfolding first_readable base_dir
  loaded_file base_path path =
      first_readable (disk.path_of path ∷ disk.join (base_dir base_path) path ∷ [])

  -- The file that a line loads, if it loads one.
  unfoldable pub line_file : P → Chars → Option (P × Chars)
  unfolding load_path loaded_file
  line_file base_path line = elim (load_path line) [
    | none ↦ none
    | some path ↦ loaded_file base_path path
  ]

  -- The body of the loop over the lines, with the recursive call as an argument. `none` is a call that
  -- ran out of fuel. A warning is all that a file that cannot be read adds.
  unfoldable pub resolve_line : (Chars → P → Option Chars) → P → Chars → Option Chars
  unfolding line_file
  resolve_line resolve base_path line = elim (line_file base_path line) [
    | none ↦ some (line ++ new_line)
    | some (p, contents) ↦ elim (resolve contents p) [
      | none ↦ none
      | some text ↦ some (text ++ new_line)
    ]
  ]

  unfoldable pub resolve_lines : (Chars → P → Option Chars) → P → List Chars → Option Chars
  unfolding resolve_line
  resolve_lines resolve base_path [] = some []
  resolve_lines resolve base_path (line ∷ rest) = elim (resolve_line resolve base_path line) [
    | none ↦ none
    | some text ↦ elim (resolve_lines resolve base_path rest) [
      | none ↦ none
      | some more ↦ some (text ++ more)
    ]
  ]

  unfoldable pub resolve_loads : ℕ → Chars → P → Option Chars
  unfolding resolve_lines
  resolve_loads zero source base_path = none
  resolve_loads (suc fuel) source base_path =
      resolve_lines (resolve_loads fuel) base_path (lines source)
