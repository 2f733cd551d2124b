-- ===== src/Profiler/Writer.antt =====
-- The steps of profiler/src/stack_profiler.rs: a read of the memory, or a write of text.
use wispy_vm.Vm.Memory.{Memory, M, Outcome, ok, err, stuck}

-- A step on the memory and a state `S`, which outlives an error too.
abbrev pub Run : Type 0 → Type 0 → Type 0
Run S A = S → Memory → S × Outcome A

module _ {S : Type 0} where
  abbrev pub run_then : {A B : Type 0} → S × Outcome A → (A → Run S B) → S × Outcome B
  run_then (s, ok a m) f = f a s m
  run_then (s, err e m) f = (s, err e m)
  run_then (s, stuck) f = (s, stuck)

  infixl 5 ◌>>=◌ ◌>>◌
  abbrev pub ◌>>=◌ : {A B : Type 0} → Run S A → (A → Run S B) → Run S B
  ◌>>=◌ f g s m = run_then (f s m) g

  abbrev pub ◌>>◌ : {B : Type 0} → Run S (Unit {0}) → Run S B → Run S B
  f >> g = f >>= λ _. g

  -- A step on the memory alone.
  abbrev pub lift : {A : Type 0} → M A → Run S A
  lift f s m = (s, f m)
