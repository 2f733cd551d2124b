-- ===== src/Wispy/Loads/Tests.antt =====
-- Disks of one file, which is named `a`.
use wispy_vm.Prelude.{
  ℕ, ◌≡◌, ◌↔◌, refl, sym, subst, none, some, List, [], ◌∷◌, ◌++◌, arith, ◌==◌, if◌then◌else◌,
}
use wispy_vm.Profiler.{Chars}
use wispy_vm.Profiler.Text.{lines}
use wispy_vm.Wispy.Loads.{Disk, line_file, loaded_file, resolve_lines, resolve_loads}
use wispy_vm.Wispy.Loads.Cycles.{resolve_loads-cycle}
use wispy_vm.Wispy.Loads.Expansion.{Expands, Loads, line_file-read}
use wispy_vm.Wispy.Loads.Fuel.{IsAcyclic, resolve_loads-iff-Expands, resolve_loads-total}

abbrev one_file : Chars → Disk ℕ
one_file contents = record {
  path_of = λ cs. elim cs [ [] ↦ 0 | c ∷ _ ↦ c ];
  parent = λ p. none;
  join = λ p cs. 0;
  read_to_string = λ p. if p == b'a' then some contents else none;
}

-- `(load "a")`, in spaces.
abbrev load_a : Chars
load_a = b' ' ∷ b'(' ∷ b'l' ∷ b'o' ∷ b'a' ∷ b'd' ∷ b' ' ∷ 34 ∷ b'a' ∷ 34 ∷ b')' ∷ b' ' ∷ []

resolve_loads_of_texts :
    resolve_loads (one_file (b'1' ∷ [])) 2 (load_a ++ 10 ∷ b'2' ∷ []) 0
    ≡ some (b'1' ∷ 10 ∷ 10 ∷ b'2' ∷ 10 ∷ [])
unfolding resolve_loads resolve_lines lines
resolve_loads_of_texts = refl

-- Only the empty source has the number zero.
abbrev rank : Chars → ℕ → ℕ
rank [] p = 0
rank (c ∷ cs) p = 1

nothing_loaded :
    (base : ℕ) (contents : Chars) (p : ℕ) (before after : List Chars) (line : Chars)
    → lines [] ≡ before ++ line ∷ after
    → ⊥
unfolding lines
nothing_loaded base contents p [] after line e = cc
nothing_loaded base contents p (l ∷ before) after line e = cc

empty_contents :
    (p : ℕ) (contents : Chars)
    → (one_file []).read_to_string p ≡ some contents
    → rank contents p ≡ 0
empty_contents p [] e = refl
empty_contents p (c ∷ cs) e = ground arith

one_file-IsAcyclic : IsAcyclic (one_file []) rank
one_file-IsAcyclic [] base contents p loads =
    absurd (nothing_loaded base contents p loads.before loads.after loads.line loads.at)
one_file-IsAcyclic (c ∷ cs) base contents p loads = omega (
  arith,
  empty_contents p contents (line_file-read (one_file []) base loads.line p contents loads.file),
)

resolve_loads-total_example : (t : Chars) × (resolve_loads (one_file []) 2 load_a 0 ≡ some t)
resolve_loads-total_example =
    resolve_loads-total (one_file []) rank one_file-IsAcyclic 2 load_a 0 (omega arith)

load_a-Loads : (base : ℕ) → Loads (one_file load_a) load_a base load_a b'a'
unfolding lines line_file loaded_file
load_a-Loads base = record { before = []; line = load_a; after = []; at = refl; file = refl }

resolve_loads-cycle_example : resolve_loads (one_file load_a) 1000 load_a 0 ≡ none
resolve_loads-cycle_example =
    resolve_loads-cycle (one_file load_a) (λ source base. source ≡ load_a)
      (λ source base q. (
        load_a,
        b'a',
        subst (λ s. Loads (one_file load_a) s base load_a b'a') (sym q) (load_a-Loads base),
        refl,
      ))
      1000 load_a 0 refl

resolve_loads-iff-Expands_example :
    ((fuel : ℕ) × (resolve_loads (one_file (b'1' ∷ [])) fuel load_a 0 ≡ some (b'1' ∷ 10 ∷ 10 ∷ [])))
    ↔ Expands (one_file (b'1' ∷ [])) 0 (lines load_a) (b'1' ∷ 10 ∷ 10 ∷ [])
resolve_loads-iff-Expands_example =
    resolve_loads-iff-Expands (one_file (b'1' ∷ [])) load_a 0 (b'1' ∷ 10 ∷ 10 ∷ [])
