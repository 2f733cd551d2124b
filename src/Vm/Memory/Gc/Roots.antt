-- ===== src/Vm/Memory/Gc/Roots.antt =====
-- The roots that `collect_garbages` of vm/src/memory.rs copies before its scan.
use wispy_vm.Prelude.{
  ℕ, ◌≡◌, refl, subst, Bool, true, false, not, Option, none, some, arith, if◌then◌else◌, List,
}
use wispy_vm.Vm.ValueInner.{is_cons}
use wispy_vm.Vm.Cons.{Cons}
use wispy_vm.Vm.Value.{Value}
use wispy_vm.Vm.Memory.{Memory, M, Outcome, ok, ◌>>◌, space_size}
use wispy_vm.Vm.Memory.Gc.{flip, copy_code, copy_stack, copy_false, copy_register, copy_extra}
use wispy_vm.Vm.Memory.Gc.Relocate.{Setup, Target, Reloc, Inv}
use wispy_vm.Vm.Memory.Gc.Keep.{Extends, Reloc-Extends}
use wispy_vm.Vm.Memory.Gc.Copy.{stage, Into, copy_cons-Copied, Extends-refl}
use wispy_vm.Vm.Memory.Gc.Scan.{Extends-trans}
use wispy_vm.Vm.Memory.Gc.Sound.{IsRoot, IsSound, setup, Inv-initial}

-- One more root, if there is one.
abbrev pub ExtraRoot : Memory → Option Cons → Type 0
ExtraRoot m none = Unit {0}
ExtraRoot m (some c) = IsRoot m c

abbrev pub RelocExtra : Setup → ℕ → (ℕ → ℕ) → Option Cons → Option Cons → Type 0
RelocExtra g count src none none = Unit {0}
RelocExtra g count src none (some c') = ⊥
RelocExtra g count src (some c) none = ⊥
RelocExtra g count src (some c) (some c') = Reloc g count src c c'

-- What copying the extra root leaves.
pub record ExtraCopied (g : Setup) (m : Memory) (count : ℕ) (src : ℕ → ℕ) (extra : Option Cons)
    (out : Outcome (Option Cons)) : Type 0 where
  pub count' : ℕ
  pub src' : ℕ → ℕ
  pub heap' : List Value
  pub value : Option Cons
  pub runs : out ≡ ok value (stage m count' heap')
  pub inv : Inv g count' src' 0 heap'
  pub extends : Extends count src count' src'
  pub reloc : RelocExtra g count' src' extra value

pub copy_extra-Copied :
    (g : Setup) (m : Memory) (into : Into g m) {count : ℕ} {src : ℕ → ℕ} {h : List Value}
    → Inv g count src 0 h
    → (extra : Option Cons)
    → ((c : Cons) → extra ≡ some c → (is_cons c ≡ true) × Target g.old g.cells c)
    → ExtraCopied g m count src extra (copy_extra extra (stage m count h))
unfolding copy_extra
copy_extra-Copied g m into {count} {src} {h} v none root = record {
  count' = count;
  src' = src;
  heap' = h;
  value = none;
  runs = refl;
  inv = v;
  extends = Extends-refl count src;
  reloc = tt;
}
copy_extra-Copied g m into {count} {src} {h} v (some c) root =
    let (ec, t) = root c refl in
    let p = copy_cons-Copied g m into v (omega arith) c ec t in
    record {
      count' = p.count';
      src' = p.src';
      heap' = p.heap';
      value = some p.value;
      runs = rw p.runs;
      inv = p.inv;
      extends = p.extends;
      reloc = p.reloc;
    }

pub RelocExtra-Extends :
    (g : Setup) {count count' : ℕ} {src src' : ℕ → ℕ}
    → Extends count src count' src'
    → (c c' : Option Cons) → RelocExtra g count src c c'
    → RelocExtra g count' src' c c'
RelocExtra-Extends g x none none r = tt
RelocExtra-Extends g x none (some c') r = absurd r
RelocExtra-Extends g x (some c) none r = absurd r
RelocExtra-Extends g x (some c) (some c') r = Reloc-Extends g x r

into_other : (b : Bool) (half : ℕ) → (if b then 0 else half) ≡ (if not b then half else 0)
into_other true half = refl
into_other false half = refl

module _ (m : Memory) (s : IsSound m) where
  -- The memory before the first root and after each of the four.
  abbrev pub rooted₀ : Memory
  rooted₀ = record m { space = not m.space }

  abbrev pub rooted₁ : Cons → Memory
  rooted₁ c = record m { code = c; space = not m.space }

  abbrev pub rooted₂ : Cons → Cons → Memory
  rooted₂ c st = record m { code = c; stack = st; space = not m.space }

  abbrev pub rooted₃ : Cons → Cons → Cons → Memory
  rooted₃ c st f = record m { code = c; stack = st; false_cons = f; space = not m.space }

  abbrev pub rooted₄ : Cons → Cons → Cons → Cons → Memory
  rooted₄ c st f r = record m {
    code = c;
    stack = st;
    false_cons = f;
    register = r;
    space = not m.space;
  }

  pub Into-rooted : Into (setup m s) rooted₀
  unfolding setup
  Into-rooted = into_other m.space (space_size m)

  root : (c : Cons) → IsRoot m c → (is_cons c ≡ true) × Target (setup m s).old (setup m s).cells c
  unfolding setup
  root c r = (r.cons, r.target)

  pub extra-root :
      (extra : Option Cons)
      → ExtraRoot m extra
      → (c : Cons) → extra ≡ some c
      → (is_cons c ≡ true) × Target (setup m s).old (setup m s).cells c
  extra-root none r c e = cc
  extra-root (some c') r c e = let same : c' ≡ c = cc in root c (subst (IsRoot m) same r)

  -- The four roots, copied one after the other.
  pub record Roots : Type 0 where
    pub count : ℕ
    pub src : ℕ → ℕ
    pub heap : List Value
    pub new_code : Cons
    pub new_stack : Cons
    pub new_false : Cons
    pub new_register : Cons
    pub runs :
        (rest : M (Option Cons))
        → (copy_code >> (copy_stack >> (copy_false >> (copy_register >> rest)))) (flip m)
          ≡ rest (stage (rooted₄ new_code new_stack new_false new_register) count heap)
    pub inv : Inv (setup m s) count src 0 heap
    pub code : Reloc (setup m s) count src m.code new_code
    pub stack : Reloc (setup m s) count src m.stack new_stack
    pub false_cons : Reloc (setup m s) count src m.false_cons new_false
    pub register : Reloc (setup m s) count src m.register new_register

  pub copy_roots : Roots
  unfolding copy_code copy_stack copy_false copy_register flip
  copy_roots =
      let g = setup m s in
      let into = Into-rooted in
      let (ec, tc) = root m.code s.code in
      let p₁ = copy_cons-Copied g rooted₀ into (Inv-initial m s) (omega arith) m.code ec tc in
      let (es, ts) = root m.stack s.stack in
      let p₂ = copy_cons-Copied g (rooted₁ p₁.value) into p₁.inv (omega arith) m.stack es ts in
      let (ef, tf) = root m.false_cons s.false_cons in
      let p₃ =
        copy_cons-Copied g (rooted₂ p₁.value p₂.value) into p₂.inv (omega arith) m.false_cons ef
          tf in
      let (eg, tg) = root m.register s.register in
      let p₄ =
        copy_cons-Copied g (rooted₃ p₁.value p₂.value p₃.value) into p₃.inv (omega arith) m.register
          eg tg in
      let x₃ = Extends-trans p₃.extends p₄.extends in
      let x₂ = Extends-trans p₂.extends x₃ in
      record {
        count = p₄.count';
        src = p₄.src';
        heap = p₄.heap';
        new_code = p₁.value;
        new_stack = p₂.value;
        new_false = p₃.value;
        new_register = p₄.value;
        runs = λ rest. rw (p₁.runs, p₂.runs, p₃.runs, p₄.runs);
        inv = p₄.inv;
        code = Reloc-Extends g x₂ p₁.reloc;
        stack = Reloc-Extends g x₃ p₂.reloc;
        false_cons = Reloc-Extends g p₄.extends p₃.reloc;
        register = p₄.reloc;
      }
