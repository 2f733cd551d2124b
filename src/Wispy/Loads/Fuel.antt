-- ===== src/Wispy/Loads/Fuel.antt =====
-- The depth of calls that resolves the `load` lines of wispy/src/main.rs.
use wispy_vm.Prelude.{
  ℕ, zero, suc, ◌+◌, ◌<◌, ◌≤◌, ◌≡◌, ◌↔◌, refl, sym, ◌∙◌, subst, append_assoc, Option, some, List,
  [], ◌∷◌, ◌++◌, arith, Option-cases, inl, inr,
}
use wispy_vm.Profiler.{Chars}
use wispy_vm.Profiler.Text.{lines}
use wispy_vm.Wispy.Loads.{Disk, line_file, new_line, resolve_line, resolve_lines, resolve_loads}
use wispy_vm.Wispy.Loads.Expansion.{
  Expands, Loads, end, kept, loaded, resolve_line-kept, resolve_line-loaded, resolve_lines-cons,
  resolve_line-cases, resolve_lines-cases,
}

module _ {P : Type 0} (disk : Disk P) where
  -- What the lines resolve to is their text, if this holds of the files that they load.
  resolve_lines-Expands :
      (resolve : Chars → P → Option Chars)
      → ((contents : Chars) (p : P) (t : Chars)
          → resolve contents p ≡ some t
          → Expands disk p (lines contents) t)
      → (base : P) (ls : List Chars) (t : Chars) → resolve_lines disk resolve base ls ≡ some t
      → Expands disk base ls t
  unfolding resolve_lines
  resolve_lines-Expands resolve sound base [] t h = subst (Expands disk base []) (cc) end
  resolve_lines-Expands resolve sound base (line ∷ rest) t h =
      let (text, more, e, e', eq) = resolve_lines-cases disk resolve base line rest t h in
      let ih = resolve_lines-Expands resolve sound base rest more e' in
      rw eq (elim (resolve_line-cases disk resolve base line rest text e) [
        | inl (no_file, same) ↦ rw same (kept no_file ih)
        | inr (p, contents, inner, file, resolved, same) ↦
            rw same (loaded p contents file (sound contents p inner resolved) ih)
      ])

  resolve_loads-Expands :
      (fuel : ℕ) (source : Chars) (base : P) (t : Chars)
      → resolve_loads disk fuel source base ≡ some t
      → Expands disk base (lines source) t
  unfolding resolve_loads
  resolve_loads-Expands zero source base t h = cc
  resolve_loads-Expands (suc fuel) source base t h =
      resolve_lines-Expands (resolve_loads disk fuel) (resolve_loads-Expands fuel) base
        (lines source) t h

  one_deeper :
      (t source : Chars) (base : P) (least : ℕ)
      → ((depth : ℕ)
          → least ≤ depth
          → resolve_lines disk (resolve_loads disk depth) base (lines source) ≡ some t)
      → (depth : ℕ) → suc least ≤ depth
      → resolve_loads disk depth source base ≡ some t
  unfolding resolve_loads
  one_deeper t source base least h zero le = absurd (omega arith)
  one_deeper t source base least h (suc depth) le = h depth (omega arith)

  -- A text of lines is found at each depth from some depth on.
  Expands-resolve_lines :
      {base : P} {ls : List Chars} {t : Chars}
      → Expands disk base ls t
      → (least : ℕ) × ((depth : ℕ)
          → least ≤ depth
          → resolve_lines disk (resolve_loads disk depth) base ls ≡ some t)
  unfolding resolve_lines resolve_loads
  Expands-resolve_lines end = (0, λ depth le. refl)
  Expands-resolve_lines (kept {base} {line} {rest} {more} no_file later) =
      let (least, ih) = Expands-resolve_lines later in
      (
        least,
        λ depth le.
            resolve_lines-cons disk (resolve_loads disk depth) base line rest (line ++ new_line)
              more (resolve_line-kept disk (resolve_loads disk depth) base line rest no_file)
              (ih depth le),
      )
  Expands-resolve_lines (loaded {base} {line} {rest} {text} {more} p contents file inner later) =
      let (deep, inside) = Expands-resolve_lines inner in
      let (least, ih) = Expands-resolve_lines later in
      (
        suc deep + least,
        λ depth le.
            resolve_lines-cons disk (resolve_loads disk depth) base line rest (text ++ new_line)
              more
              (resolve_line-loaded disk (resolve_loads disk depth) base line rest p contents text
                file (one_deeper text contents p deep inside depth (omega arith)))
              (ih depth (omega arith)),
      )

  -- A source resolves to a text at some depth of calls exactly when the text is the one of its lines,
  -- each line that loads a file replaced by the text of the file.
  pub resolve_loads-iff-Expands :
      (source : Chars) (base : P) (t : Chars)
      → ((fuel : ℕ) × (resolve_loads disk fuel source base ≡ some t))
        ↔ Expands disk base (lines source) t
  resolve_loads-iff-Expands source base t = (
    λ found. resolve_loads-Expands found.0 source base t found.1,
    λ e.
        let (least, h) = Expands-resolve_lines e in
        (suc least, one_deeper t source base least h (suc least) (omega arith)),
  )

  -- A number of each source at its path, which is less at a file than where the file is loaded.
  abbrev pub IsAcyclic : (Chars → P → ℕ) → Type 0
  IsAcyclic rank =
      (source : Chars) (base : P) (contents : Chars) (p : P)
      → Loads disk source base contents p
      → rank contents p < rank source base

  module _ (resolve : Chars → P → Option Chars) (source : Chars) (base : P)
      (total : (contents : Chars) (p : P)
        → Loads disk source base contents p
        → (t : Chars) × (resolve contents p ≡ some t)) where
    resolve_line-total :
        (before rest : List Chars) (line : Chars)
        → lines source ≡ before ++ line ∷ rest
        → (t : Chars) × (resolve_line disk resolve base line ≡ some t)
    resolve_line-total before rest line at = elim (Option-cases (line_file disk base line)) [
      | inl no_file ↦ (line ++ new_line, resolve_line-kept disk resolve base line rest no_file)
      | inr ((p, contents), file) ↦
          let loads : Loads disk source base contents p = record {
            before = before;
            line = line;
            after = rest;
            at = at;
            file = file;
          } in
          let (text, resolved) = total contents p loads in
          (
            text ++ new_line,
            resolve_line-loaded disk resolve base line rest p contents text file resolved,
          )
    ]

    resolve_lines-total :
        (before rest : List Chars)
        → lines source ≡ before ++ rest
        → (t : Chars) × (resolve_lines disk resolve base rest ≡ some t)
    unfolding resolve_lines
    resolve_lines-total before [] at = ([], refl)
    resolve_lines-total before (line ∷ rest) at =
        let (text, e) = resolve_line-total before rest line at in
        let (more, e') =
          resolve_lines-total (before ++ line ∷ []) rest
            (at ∙ sym (append_assoc before (line ∷ []) rest)) in
        (text ++ more, resolve_lines-cons disk resolve base line rest text more e e')

  -- Where no file is loaded from itself through others, so that sources have such numbers, a depth of
  -- calls above the number of a source resolves it.
  pub resolve_loads-total :
      (rank : Chars → P → ℕ)
      → IsAcyclic rank
      → (fuel : ℕ) (source : Chars) (base : P) → rank source base < fuel
      → (t : Chars) × (resolve_loads disk fuel source base ≡ some t)
  unfolding resolve_loads
  resolve_loads-total rank falls zero source base h = absurd (omega arith)
  resolve_loads-total rank falls (suc fuel) source base h =
      resolve_lines-total (resolve_loads disk fuel) source base
        (λ contents p loads.
          resolve_loads-total rank falls fuel contents p
            (omega (arith, falls source base contents p loads)))
        [] (lines source) refl
