-- ===== src/File/Descriptors/Runs.antt =====
-- What a table of open files promises, whatever the map behind it: its state is the next descriptor and
-- the file of each descriptor.
use wispy_vm.Prelude.{
  ℕ, suc, ◌+◌, ◌^◌, ◌≤◌, ◌<◌, ◌≡◌, ◌≢◌, ◌∙◌, Option, none, some, ◌==◌, if◌then◌else◌, arith,
}
use wispy_vm.File.Descriptors.{next_descriptor}

pub record Table (F : Type 0) : Type 0 where
  pub next : ℕ
  pub file : ℕ → Option F

module _ {F : Type 0} where
  -- A file is opened at the next descriptor, a descriptor is closed, or nothing changes.
  pub data Step : Table F → Table F → Type 0 where
    opens :
        {t u : Table F} (f : F)
        → u.next ≡ next_descriptor t.next
        → ((j : ℕ) → u.file j ≡ (if t.next == j then some f else t.file j))
        → Step t u
    closes :
        {t u : Table F} (d : ℕ)
        → u.next ≡ t.next
        → ((j : ℕ) → u.file j ≡ (if d == j then none else t.file j))
        → Step t u
    keeps : {t u : Table F} → u.next ≡ t.next → ((j : ℕ) → u.file j ≡ t.file j) → Step t u

  -- A descriptor that the step closes is one of `Q`.
  abbrev pub Closes : (ℕ → Type 0) → {t u : Table F} → Step t u → Type 0
  Closes Q (opens f e h) = Unit {0}
  Closes Q (closes k e h) = Q k
  Closes Q (keeps e h) = Unit {0}

  -- A number of steps, which close descriptors of `Q` only.
  pub data Steps (Q : ℕ → Type 0) : ℕ → Table F → Table F → Type 0 where
    here : {t : Table F} → Steps Q 0 t t
    then_step :
        {n : ℕ} {t u v : Table F} (s : Step t u) → Closes Q s → Steps Q n u v → Steps Q (suc n) t v

  -- No descriptor from the next one on has a file.
  abbrev pub IsFresh : Table F → Type 0
  IsFresh t = (j : ℕ) → t.next ≤ j → t.file j ≡ none

  Step-IsFresh : {t u : Table F} → Step t u → suc t.next < 2 ^ 64 → IsFresh t → IsFresh u
  unfolding next_descriptor
  Step-IsFresh {t} {u} (opens f e h) small fresh j le = ground (arith, e, h j, fresh j)
  Step-IsFresh {t} {u} (closes d e h) small fresh j le = ground (arith, e, h j, fresh j)
  Step-IsFresh {t} {u} (keeps e h) small fresh j le = h j ∙ fresh j (omega (arith, e))

  Step-next : {t u : Table F} → Step t u → suc t.next < 2 ^ 64 → u.next ≤ suc t.next
  unfolding next_descriptor
  Step-next (opens f e h) small = omega (arith, e)
  Step-next (closes d e h) small = omega (arith, e)
  Step-next (keeps e h) small = omega (arith, e)

  -- The counter and the descriptors that are free, while the counter does not wrap.
  pub Steps-IsFresh :
      {Q : ℕ → Type 0} {n : ℕ} {t u : Table F}
      → Steps Q n t u
      → t.next + n < 2 ^ 64
      → IsFresh t
      → (u.next ≤ t.next + n) × IsFresh u
  Steps-IsFresh here small fresh = (omega arith, fresh)
  Steps-IsFresh (then_step s q rest) small fresh =
      let le = Step-next s (omega arith) in
      let ih = Steps-IsFresh rest (omega (arith, le)) (Step-IsFresh s (omega arith) fresh) in
      (omega (arith, le, ih.0), ih.1)

  -- A file stays at its descriptor, which is no other file's, until it is closed there.
  Step-file :
      {t u : Table F} (s : Step t u) (d : ℕ) (f : F)
      → IsFresh t
      → Closes (λ k. k ≢ d) s
      → t.file d ≡ some f
      → u.file d ≡ some f
  Step-file {t} {u} (opens g e h) d f fresh spared at = ground (arith, h d, fresh d)
  Step-file {t} {u} (closes k e h) d f fresh spared at = ground (arith, h d)
  Step-file {t} {u} (keeps e h) d f fresh spared at = h d ∙ at

  pub Steps-file :
      (d : ℕ) (f : F) {n : ℕ} {t u : Table F}
      → Steps (λ k. k ≢ d) n t u
      → t.next + n < 2 ^ 64
      → IsFresh t
      → t.file d ≡ some f
      → u.file d ≡ some f
  Steps-file d f here small fresh at = at
  Steps-file d f (then_step s q rest) small fresh at =
      let le = Step-next s (omega arith) in
      Steps-file d f rest (omega (arith, le)) (Step-IsFresh s (omega arith) fresh)
        (Step-file s d f fresh q at)
