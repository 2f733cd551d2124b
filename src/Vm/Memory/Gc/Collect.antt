-- ===== src/Vm/Memory/Gc/Collect.antt =====
-- `collect_garbages` of vm/src/memory.rs: it ends without an error, and the new memory is the old
-- one with every address relocated.
use wispy_vm.Prelude.{
  ℕ, suc, ◌+◌, ◌*◌, ◌/◌, ◌%◌, ◌≤◌, ◌<◌, ◌≡◌, refl, sym, ap, ◌∙◌, not, Option, arith, length, List,
  get_or,
}
use wispy_vm.Vm.Cons
use wispy_vm.Vm.Cons.{Cons}
use wispy_vm.Vm.Value.{Value}
use wispy_vm.Vm.Memory.{
  Memory, M, Outcome, ok, ◌>>◌, ◌>>=◌, gets, pure, size, space_size, allocation_start,
}
use wispy_vm.Vm.Memory.Access.{word_at}
use wispy_vm.Vm.Memory.Gc.{copy_extra, scan, collect_garbages}
use wispy_vm.Vm.Memory.Gc.Relocate.{Setup, Reloc, Inv, origin}
use wispy_vm.Vm.Memory.Gc.Keep.{Reloc-Extends}
use wispy_vm.Vm.Memory.Gc.Copy.{stage, Into, start-stage, space-stage}
use wispy_vm.Vm.Memory.Gc.Scan.{Scanned, scan-Scanned, Extends-trans}
use wispy_vm.Vm.Memory.Gc.Sound.{IsSound, cells, setup}
use wispy_vm.Vm.Memory.Gc.Roots.{
  ExtraRoot, RelocExtra, RelocExtra-Extends, ExtraCopied, copy_extra-Copied, rooted₄, Into-rooted,
  extra-root, copy_roots,
}

-- What a collection leaves of the memory `m`.
pub record Collected (m : Memory) (s : IsSound m) (extra : Option Cons)
    (out : Outcome (Option Cons)) : Type 0 where
  pub count : ℕ
  pub src : ℕ → ℕ
  pub after : Memory
  pub new_extra : Option Cons
  pub runs : out ≡ ok new_extra after
  pub same_size : size after ≡ size m
  pub flipped : after.space ≡ not m.space
  pub allocated : after.allocation_index ≡ 2 * count
  pub bounded : count ≤ cells m
  pub sources : (j : ℕ) → j < count → src j < cells m
  pub apart : (i j : ℕ) → i < count → j < count → src i ≡ src j → i ≡ j
  pub words :
      (i : ℕ)
      → i < 2 * count
      → Reloc
          (setup m s)
          count
          src
          (word_at m (allocation_start m + (2 * src (i / 2) + i % 2)))
          (word_at after (allocation_start after + i))
  pub code : Reloc (setup m s) count src m.code after.code
  pub stack : Reloc (setup m s) count src m.stack after.stack
  pub false_cons : Reloc (setup m s) count src m.false_cons after.false_cons
  pub register : Reloc (setup m s) count src m.register after.register
  pub extra_root : RelocExtra (setup m s) count src extra new_extra

-- The sources of two cells differ: each old cell is copied once.
Inv-apart :
    (g : Setup) {count scanned : ℕ} {src : ℕ → ℕ} {h : List Value}
    → Inv g count src scanned h
    → (i j : ℕ) → i < count
    → j < count
    → src i ≡ src j
    → i ≡ j
Inv-apart g {h} v i j hi hj e = omega (
  arith,
  sym (v.forward i hi).1
      ∙ ap (λ k. Cons.index (get_or h (g.old + 2 * k + 1) 0)) e
      ∙ (v.forward j hj).1,
)

module _ (m : Memory) (s : IsSound m) where
  -- What is done after the four roots.
  abbrev finish : Option Cons → M (Option Cons)
  finish extra = copy_extra extra >>= λ extra'. gets allocation_start >>= λ start.
      gets (λ m. suc (space_size m)) >>= λ fuel. scan fuel start >> pure extra'

  finish-run :
      (r : Memory) (into : Into (setup m s) r) {count : ℕ} {src : ℕ → ℕ} (h : List Value)
      {extra : Option Cons}
      (p : ExtraCopied (setup m s) r count src extra (copy_extra extra (stage r count h)))
      (q : Scanned (setup m s) r p.count' p.src' (
        scan
          (suc (space_size (stage r p.count' p.heap')))
          ((setup m s).fresh + 0)
          (stage r p.count' p.heap')))
      → finish extra (stage r count h) ≡ ok p.value (stage r q.count' q.heap')
  finish-run r into h p q =
      let at : allocation_start (stage r p.count' p.heap') ≡ (setup m s).fresh + 0 =
        start-stage (setup m s) r into p.count' p.heap' p.inv.size ∙ omega arith in
      rw (p.runs, at, q.runs)

  size_after :
      (r : Memory) (count : ℕ) (h : List Value)
      → length h ≡ 2 * (setup m s).half
      → size (stage r count h) ≡ size m
  unfolding setup space_size size
  size_after r count h e = omega (arith, s.whole)

  count_bounded :
      {count n : ℕ} {src : ℕ → ℕ} {h : List Value} → Inv (setup m s) count src n h → count ≤ cells m
  unfolding setup
  count_bounded v = omega (arith, v.balance)

  sources_bounded :
      {count n : ℕ} {src : ℕ → ℕ} {h : List Value}
      → Inv (setup m s) count src n h
      → (j : ℕ) → j < count
      → src j < cells m
  unfolding setup
  sources_bounded v = v.sources

  origin-before :
      (src : ℕ → ℕ) (i : ℕ)
      → origin (setup m s) src i ≡ word_at m (allocation_start m + (2 * src (i / 2) + i % 2))
  unfolding setup
  origin-before src i = refl

  words_after :
      (r : Memory) (into : Into (setup m s) r) {count : ℕ} {src : ℕ → ℕ} {h : List Value}
      → Inv (setup m s) count src (2 * count) h
      → (i : ℕ) → i < 2 * count
      → Reloc
          (setup m s)
          count
          src
          (word_at m (allocation_start m + (2 * src (i / 2) + i % 2)))
          (word_at (stage r count h) (allocation_start (stage r count h) + i))
  words_after r into {count} {src} {h} v i hi =
      rw (start-stage (setup m s) r into count h v.size, ← origin-before src i) (v.done i hi hi)

  -- A collection of a sound memory, with an extra root or without one, ends without an error. The
  -- new memory holds copies of some cells of the old one, each at most once and every word relocated
  -- to the copies, and so are the five roots.
  pub collect_garbages-Collected :
      (extra : Option Cons) → ExtraRoot m extra → Collected m s extra (collect_garbages extra m)
  collect_garbages-Collected extra er =
      let g = setup m s in
      let r = copy_roots m s in
      let m₅ = rooted₄ m s r.new_code r.new_stack r.new_false r.new_register in
      let p = copy_extra-Copied g m₅ (Into-rooted m s) r.inv extra (extra-root m s extra er) in
      let fuel = suc (space_size (stage m₅ p.count' p.heap')) in
      let q =
        scan-Scanned g m₅ (Into-rooted m s) fuel p.inv (omega arith)
          (omega (arith, space-stage g m₅ (Into-rooted m s) p.count' p.heap' p.inv.size, g.fits)) in
      let x = Extends-trans p.extends q.extends in
      record {
        count = q.count';
        src = q.src';
        after = stage m₅ q.count' q.heap';
        new_extra = p.value;
        runs =
            unfold collect_garbages in
            (r.runs (finish extra) ∙ finish-run m₅ (Into-rooted m s) r.heap p q);
        same_size = size_after m₅ q.count' q.heap' q.inv.size;
        flipped = refl;
        allocated = refl;
        bounded = count_bounded q.inv;
        sources = sources_bounded q.inv;
        apart = Inv-apart g q.inv;
        words = words_after m₅ (Into-rooted m s) q.inv;
        code = Reloc-Extends g x r.code;
        stack = Reloc-Extends g x r.stack;
        false_cons = Reloc-Extends g x r.false_cons;
        register = Reloc-Extends g x r.register;
        extra_root = RelocExtra-Extends g q.extends extra p.value p.reloc;
      }
