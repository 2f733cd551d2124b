-- ===== src/Wispy/Loads/Cycles.antt =====
-- Files of wispy/src/main.rs that load one another.
use wispy_vm.Prelude.{
  ℕ, zero, suc, ◌≡◌, refl, Option, none, some, List, [], ◌∷◌, ◌++◌, Option-cases, inl, inr,
}
use wispy_vm.Profiler.{Chars}
use wispy_vm.Wispy.Loads.Expansion.{Loads}
use wispy_vm.Wispy.Loads.{Disk, line_file, resolve_line, resolve_lines, resolve_loads}

module _ {P : Type 0} (disk : Disk P) where
  resolve_line-none :
      (resolve : Chars → P → Option Chars) (base : P) (line : Chars) (p : P) (contents : Chars)
      → line_file disk base line ≡ some (p, contents)
      → resolve contents p ≡ none
      → resolve_line disk resolve base line ≡ none
  unfolding resolve_line
  resolve_line-none resolve base line p contents e h = rw (e, h, resolve_line)

  resolve_lines-none :
      (resolve : Chars → P → Option Chars) (base : P) (before after : List Chars) (line : Chars)
      → resolve_line disk resolve base line ≡ none
      → resolve_lines disk resolve base (before ++ line ∷ after) ≡ none
  unfolding resolve_lines
  resolve_lines-none resolve base [] after line e = rw (e, resolve_lines)
  resolve_lines-none resolve base (l ∷ before) after line e =
      let rest = resolve_lines-none resolve base before after line e in
      elim (Option-cases (resolve_line disk resolve base l)) [
        | inl h ↦ rw (h, resolve_lines)
        | inr (t, h) ↦ rw (h, rest, resolve_lines)
      ]

  -- Where each source of some kind, at its path, has a line that loads one of the kind, no depth of
  -- calls is enough to resolve such a source.
  pub resolve_loads-cycle :
      (Q : Chars → P → Type 0)
      → ((source : Chars) (base : P)
          → Q source base
          → (contents : Chars) × (p : P) × Loads disk source base contents p × Q contents p)
      → (fuel : ℕ) (source : Chars) (base : P) → Q source base
      → resolve_loads disk fuel source base ≡ none
  unfolding resolve_loads
  resolve_loads-cycle Q step zero source base q = refl
  resolve_loads-cycle Q step (suc fuel) source base q =
      let (contents, p, loads, q') = step source base q in
      let deeper = resolve_loads-cycle Q step fuel contents p q' in
      let line =
        resolve_line-none (resolve_loads disk fuel) base loads.line p contents loads.file deeper in
      rw loads.at
        (resolve_lines-none (resolve_loads disk fuel) base loads.before loads.after loads.line line)
