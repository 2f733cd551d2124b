-- ===== src/Wispy/Loads/Expansion.antt =====
-- What the `load` lines of wispy/src/main.rs stand for.
use wispy_vm.Prelude.{
  ◌≡◌, sym, ◌∙◌, ◌⊎◌, Option, none, some, List, [], ◌∷◌, ◌++◌, Option-cases, inl, inr,
}
use wispy_vm.Profiler.{Chars}
use wispy_vm.Profiler.Text.{lines}
use wispy_vm.Wispy.Loads.{
  Disk, base_dir, first_readable, load_path, loaded_file, line_file, new_line, resolve_line,
  resolve_lines,
}

none-ne-some : {A : Type 0} {a : A} → none ≡ some a → ⊥
none-ne-some h = cc

some-injective : {A : Type 0} {a b : A} → some a ≡ some b → a ≡ b
some-injective h = cc

module _ {P : Type 0} (disk : Disk P) where
  -- The text of lines at a path: a line that loads a file is the text of the file's lines, at the path
  -- of the file, and any other line is itself.
  pub data Expands : P → List Chars → Chars → Type 0 where
    end : {base : P} → Expands base [] []
    kept :
        {base : P} {line : Chars} {rest : List Chars} {more : Chars}
        → line_file disk base line ≡ none
        → Expands base rest more
        → Expands base (line ∷ rest) ((line ++ new_line) ++ more)
    loaded :
        {base : P} {line : Chars} {rest : List Chars} {text more : Chars} (p : P) (contents : Chars)
        → line_file disk base line ≡ some (p, contents)
        → Expands p (lines contents) text
        → Expands base rest more
        → Expands base (line ∷ rest) ((text ++ new_line) ++ more)

  first_readable-read :
      (candidates : List P) (p : P) (contents : Chars)
      → first_readable disk candidates ≡ some (p, contents)
      → disk.read_to_string p ≡ some contents
  unfolding first_readable
  first_readable-read [] p contents h = cc
  first_readable-read (q ∷ candidates) p contents h = elim (Option-cases (disk.read_to_string q)) [
    | inl e ↦ first_readable-read candidates p contents (sym (rw (e, first_readable)) ∙ h)
    | inr (c, e) ↦
        let same : ◌≡◌ {A = Option (P × Chars)} (some (q, c)) (some (p, contents)) =
          sym (rw (e, first_readable)) ∙ h in
        cc
  ]

  -- The file that a line loads is one that can be read.
  pub line_file-read :
      (base : P) (line : Chars) (p : P) (contents : Chars)
      → line_file disk base line ≡ some (p, contents)
      → disk.read_to_string p ≡ some contents
  unfolding line_file loaded_file
  line_file-read base line p contents h = elim (Option-cases (load_path line)) [
    | inl e ↦ absurd (none-ne-some (sym (rw (e, line_file)) ∙ h))
    | inr (path, e) ↦
        first_readable-read (disk.path_of path ∷ disk.join (base_dir disk base) path ∷ []) p
          contents (sym (rw (e, line_file, loaded_file)) ∙ h)
  ]

  -- A line of the source loads a file, whose contents are its own.
  pub record Loads (source : Chars) (base : P) (contents : Chars) (p : P) : Type 0 where
    pub before : List Chars
    pub line : Chars
    pub after : List Chars
    pub at : lines source ≡ before ++ line ∷ after
    pub file : line_file disk base line ≡ some (p, contents)

  module _ (resolve : Chars → P → Option Chars) (base : P) (line : Chars) (rest : List Chars) where
    pub resolve_line-kept :
        line_file disk base line ≡ none
        → resolve_line disk resolve base line ≡ some (line ++ new_line)
    unfolding resolve_line
    resolve_line-kept e = rw (e, resolve_line)

    pub resolve_line-loaded :
        (p : P) (contents text : Chars)
        → line_file disk base line ≡ some (p, contents)
        → resolve contents p ≡ some text
        → resolve_line disk resolve base line ≡ some (text ++ new_line)
    unfolding resolve_line
    resolve_line-loaded p contents text e h = rw (e, h, resolve_line)

    pub resolve_lines-cons :
        (text more : Chars)
        → resolve_line disk resolve base line ≡ some text
        → resolve_lines disk resolve base rest ≡ some more
        → resolve_lines disk resolve base (line ∷ rest) ≡ some (text ++ more)
    unfolding resolve_lines
    resolve_lines-cons text more e h = rw (e, h, resolve_lines)

    -- A line that is resolved is kept, or the text of its file.
    pub resolve_line-cases :
        (t : Chars)
        → resolve_line disk resolve base line ≡ some t
        → ((line_file disk base line ≡ none) × (t ≡ line ++ new_line))
          ⊎ ((p : P) × (contents text : Chars) × (line_file disk base line ≡ some (p, contents))
              × (resolve contents p ≡ some text)
              × (t ≡ text ++ new_line))
    unfolding resolve_line
    resolve_line-cases t h = elim (Option-cases (line_file disk base line)) [
      | inl e ↦ inl (e, some-injective (sym h ∙ resolve_line-kept e))
      | inr ((p, contents), e) ↦ elim (Option-cases (resolve contents p)) [
        | inl lost ↦ absurd (none-ne-some (sym (rw (e, lost, resolve_line)) ∙ h))
        | inr (text, found) ↦ inr (
          p,
          contents,
          text,
          e,
          found,
          some-injective (sym h ∙ resolve_line-loaded p contents text e found),
        )
      ]
    ]

    pub resolve_lines-cases :
        (t : Chars)
        → resolve_lines disk resolve base (line ∷ rest) ≡ some t
        → (text more : Chars) × (resolve_line disk resolve base line ≡ some text)
          × (resolve_lines disk resolve base rest ≡ some more)
          × (t ≡ text ++ more)
    unfolding resolve_lines
    resolve_lines-cases t h = elim (Option-cases (resolve_line disk resolve base line)) [
      | inl lost ↦ absurd (none-ne-some (sym (rw (lost, resolve_lines)) ∙ h))
      | inr (text, e) ↦ elim (Option-cases (resolve_lines disk resolve base rest)) [
        | inl lost ↦ absurd (none-ne-some (sym (rw (e, lost, resolve_lines)) ∙ h))
        | inr (more, e') ↦
            (text, more, e, e', some-injective (sym h ∙ resolve_lines-cons text more e e'))
      ]
    ]
