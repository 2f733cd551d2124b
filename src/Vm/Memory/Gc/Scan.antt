-- ===== src/Vm/Memory/Gc/Scan.antt =====
-- The `while` loop of `collect_garbages` in vm/src/memory.rs relocates every word that was copied.
use wispy_vm.Prelude.{
  ℕ, zero, suc, ◌+◌, ◌*◌, ◌/◌, ◌≤◌, ◌<◌, ◌≡◌, ◌≢◌, refl, ap, ◌∙◌, subst, false, arith, ltb, lt→ltb,
  get_or, List, length-set, set as set_at, get_or-set_ne, get_or-set_self,
}
use native.Mathlib.Decide.{ℕ_discrete}
use wispy_vm.Vm.Value
use wispy_vm.Vm.Value.{Value}
use wispy_vm.Vm.Memory.{Memory, Outcome, ok}
use wispy_vm.Vm.Memory.Access.{get-ok, set-ok}
use wispy_vm.Vm.Memory.Gc.{copy_value, scan}
use wispy_vm.Vm.Memory.Gc.Relocate.{
  Setup, Ref, number, pointer, Reloc, Old, intact, gone, Inv, remaining, origin,
}
use wispy_vm.Vm.Memory.Gc.Keep.{Extends}
use wispy_vm.Vm.Memory.Gc.Copy.{stage, Into, Copied, copy_cons-Copied, Extends-refl, end-stage}

-- The two heaps agree on the old space.
abbrev Agree : Setup → List Value → List Value → Type 0
Agree g h h' = (i : ℕ) → i < g.half → get_or h' (g.old + i) 0 ≡ get_or h (g.old + i) 0

module _ (g : Setup) (h h' : List Value) (same : Agree g h h') where
  agree_car : (k : ℕ) → k < g.cells → get_or h' (g.old + 2 * k) 0 ≡ get_or h (g.old + 2 * k) 0
  agree_car k hk = same (2 * k) (omega (arith, g.fits))

  agree_cdr :
      (k : ℕ) → k < g.cells → get_or h' (g.old + 2 * k + 1) 0 ≡ get_or h (g.old + 2 * k + 1) 0
  agree_cdr k hk =
      ap (λ p. get_or h' p 0) (omega arith)
      ∙ same (2 * k + 1) (omega (arith, g.fits))
      ∙ ap (λ p. get_or h p 0) (omega arith)

  remaining-agree : (n : ℕ) → n ≤ g.cells → remaining g h' n ≡ remaining g h n
  unfolding remaining
  remaining-agree zero hn = refl
  remaining-agree (suc n) hn = rw (agree_car n hn, remaining-agree n (omega arith))

  Old-agree :
      {count : ℕ} {src : ℕ → ℕ} (k : ℕ) → k < g.cells → Old g count src h k → Old g count src h' k
  Old-agree k hk (intact a d) = intact (agree_car k hk ∙ a) (agree_cdr k hk ∙ d)
  Old-agree k hk (gone j hj e mv c w i) =
      gone j hj e (rw (agree_car k hk) mv) (rw (agree_cdr k hk) c) (rw (agree_cdr k hk) w)
        (rw (agree_cdr k hk) i)

module _ (g : Setup) {count : ℕ} {src : ℕ → ℕ} {i : ℕ} {h : List Value} (v : Inv g count src i h)
    (hc : count ≤ g.cells) (hi : i < 2 * count) (w : Value) where
  set-Agree : Agree g h (set_at h (g.fresh + i) w)
  set-Agree j hj =
      get_or-set_ne h (g.fresh + i) (g.old + j) w 0
        (λ e. absurd (omega (arith, g.sides, g.fits, e)))

  fresh_other :
      (j : ℕ) → j ≢ i → get_or (set_at h (g.fresh + i) w) (g.fresh + j) 0 ≡ get_or h (g.fresh + j) 0
  fresh_other j ne = get_or-set_ne h (g.fresh + i) (g.fresh + j) w 0 (λ e. ne (omega (arith, e)))

  fresh_self : get_or (set_at h (g.fresh + i) w) (g.fresh + i) 0 ≡ w
  fresh_self = get_or-set_self h (g.fresh + i) w 0 (omega (arith, v.size, g.sides, g.fits))

  -- The word `i` is relocated, and the scan goes on behind it.
  Inv-scan :
      Reloc g count src (origin g src i) w → Inv g count src (suc i) (set_at h (g.fresh + i) w)
  Inv-scan r = record {
    size = length-set h (g.fresh + i) w ∙ v.size;
    balance =
        ap (λ n. count + n) (remaining-agree g h _ set-Agree g.cells (omega arith)) ∙ v.balance;
    old_cells = λ k hk. Old-agree g h _ set-Agree k hk (v.old_cells k hk);
    sources = v.sources;
    forward = λ j hj. (
      rw (agree_car g h _ set-Agree (src j) (v.sources j hj)) (v.forward j hj).0,
      rw (agree_cdr g h _ set-Agree (src j) (v.sources j hj)) (v.forward j hj).1,
    );
    done = done;
    waiting = λ j hj hj'. fresh_other j (omega arith) ∙ v.waiting j (omega arith) hj';
  }
    where
      done :
          (j : ℕ)
          → j < suc i
          → j < 2 * count
          → Reloc g count src (origin g src j) (get_or (set_at h (g.fresh + i) w) (g.fresh + j) 0)
      done j hj hj' = elim (ℕ_discrete j i) [
        | yes e ↦ rw e (rw fresh_self r)
        | no ne ↦ rw (fresh_other j ne) (v.done j (omega arith) hj')
      ]

pub Extends-trans :
    {a b c : ℕ} {f f' f'' : ℕ → ℕ} → Extends a f b f' → Extends b f' c f'' → Extends a f c f''
Extends-trans x y = record {
  more = omega (arith, x.more, y.more);
  same = λ j hj. y.same j (omega (arith, x.more)) ∙ x.same j hj;
}

-- What the scan leaves.
pub record Scanned (g : Setup) (m : Memory) (count : ℕ) (src : ℕ → ℕ) (out : Outcome (Unit {0}))
    : Type 0 where
  pub count' : ℕ
  pub src' : ℕ → ℕ
  pub heap' : List Value
  pub runs : out ≡ ok tt (stage m count' heap')
  pub inv : Inv g count' src' (2 * count') heap'
  pub extends : Extends count src count' src'

module _ (g : Setup) (m : Memory) (into : Into g m) where
  copy_value-Copied :
      {count : ℕ} {src : ℕ → ℕ} {scanned : ℕ} {h : List Value} (v : Inv g count src scanned h)
      → scanned ≤ 2 * count
      → (w : Value) → Ref g.old g.cells w
      → Copied g m count src scanned w (copy_value w (stage m count h))
  unfolding copy_value Value.to_cons
  copy_value-Copied {count} {src} {h} v near w (number e) = record {
    count' = count;
    src' = src;
    heap' = h;
    value = w;
    runs = rw (e, copy_value);
    inv = v;
    extends = Extends-refl count src;
    reloc = Reloc.number e;
  }
  copy_value-Copied {count} {h} v near w (pointer e t) =
      rw (e, copy_value) (copy_cons-Copied g m into v near w e t)

  -- One word more: it is read, relocated and written back.
  scan_round :
      (fuel : ℕ) {count : ℕ} {src : ℕ → ℕ} {i : ℕ} {h : List Value} (v : Inv g count src i h)
      → i < 2 * count
      → (p : Copied g m count src i
          (origin g src i)
          (copy_value (origin g src i) (stage m count h)))
      → scan (suc fuel) (g.fresh + i) (stage m count h)
        ≡ scan fuel (g.fresh + i + 1) (stage m p.count' (set_at p.heap' (g.fresh + i) p.value))
  unfolding scan
  scan_round fuel {count} {i} {h} v hi p = rw (
    end-stage g m into count h v.size,
    lt→ltb (g.fresh + i) (g.fresh + 2 * count) (omega arith),
    get-ok (g.fresh + i) (stage m count h) (omega (arith, v.size, v.balance, g.fits, g.sides)),
    v.waiting i (omega arith) hi,
    p.runs,
    set-ok (g.fresh + i) p.value (stage m p.count' p.heap')
        (omega (arith, p.inv.size, v.balance, g.fits, g.sides)),
  )

  -- The scan ends when it has caught up with the copies.
  scan_end :
      (fuel : ℕ) {count : ℕ} {src : ℕ → ℕ} {i : ℕ} {h : List Value} (v : Inv g count src i h)
      → i ≡ 2 * count
      → scan (suc fuel) (g.fresh + i) (stage m count h) ≡ ok tt (stage m count h)
  unfolding scan
  scan_end fuel {count} {i} {h} v e =
      let stop : ltb (g.fresh + i) (g.fresh + 2 * count) ≡ false = ground arith in
      rw (end-stage g m into count h v.size, stop)

  Inv-round :
      {count : ℕ} {src : ℕ → ℕ} {i : ℕ} (h : List Value)
      → i < 2 * count
      → (p : Copied g m count src i
          (origin g src i)
          (copy_value (origin g src i) (stage m count h)))
      → Inv g p.count' p.src' (suc i) (set_at p.heap' (g.fresh + i) p.value)
  Inv-round {count} {src} {i} h hi p =
      Inv-scan g p.inv (omega (arith, p.inv.balance)) (omega (arith, p.extends.more)) p.value
        (rw (p.extends.same (i / 2) (omega arith), origin) p.reloc)

  -- From the word `i` on the scan relocates all words, also those that it copies itself.
  pub scan-Scanned :
      (fuel : ℕ) {count : ℕ} {src : ℕ → ℕ} {i : ℕ} {h : List Value} (v : Inv g count src i h)
      → i ≤ 2 * count
      → 2 * g.cells < i + fuel
      → Scanned g m count src (scan fuel (g.fresh + i) (stage m count h))
  scan-Scanned zero v hi hf = absurd (omega (arith, v.balance))
  scan-Scanned (suc fuel) {count} {src} {i} {h} v hi hf = elim (ℕ_discrete i (2 * count)) [
    | yes e ↦ record {
      count' = count;
      src' = src;
      heap' = h;
      runs = scan_end fuel v e;
      inv = subst (λ j. Inv g count src j h) e v;
      extends = Extends-refl count src;
    }
    | no ne ↦
        let below : i < 2 * count = omega arith in
        let p =
          copy_value-Copied v (omega arith) (origin g src i)
            (g.words _ (omega (arith, v.sources (i / 2) (omega arith)))).1 in
        let rest =
          scan-Scanned fuel (Inv-round h below p) (omega (arith, p.extends.more)) (omega arith) in
        record {
          count' = rest.count';
          src' = rest.src';
          heap' = rest.heap';
          runs =
              scan_round fuel v below p
              ∙ ap (λ q. scan fuel q (stage m p.count' (set_at p.heap' (g.fresh + i) p.value)))
                  (omega arith)
              ∙ rest.runs;
          inv = rest.inv;
          extends = Extends-trans p.extends rest.extends;
        }
  ]
