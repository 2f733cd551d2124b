-- ===== src/Primitive.antt =====
-- What the primitive sets of the crates share: an operation on the state of a primitive set and a
-- memory, with an error type of its own. vm/src/primitive_set.rs is their interface.
use wispy_vm.Vm.Error
use wispy_vm.Vm.Memory.{Memory, M, Outcome}

-- What an operation of a primitive set leaves. `stuck` is a panic, or a loop of the model that ran out
-- of fuel.
pub data Attempt (E A : Type 0) : Type 0 where
  done : A → Memory → Attempt E A
  failed : E → Memory → Attempt E A
  stuck : Attempt E A

abbrev pub Operation : Type 0 → Type 0 → Type 0 → Type 0
Operation E S A = S → Memory → S × Attempt E A

-- `From<vm::Error>` turns an error of the memory into one of the primitive set.
abbrev pub from_outcome : {E A : Type 0} → (Error.Error → E) → Outcome A → Attempt E A
from_outcome wrap (Outcome.ok a m) = done a m
from_outcome wrap (Outcome.err e m) = failed (wrap e) m
from_outcome wrap Outcome.stuck = stuck

module _ {E S : Type 0} where
  abbrev pub operate_then :
      {A B : Type 0} → S × Attempt E A → (A → Operation E S B) → S × Attempt E B
  operate_then (s, done a m) f = f a s m
  operate_then (s, failed e m) f = (s, failed e m)
  operate_then (s, stuck) f = (s, stuck)

  infixl 5 ◌>>=◌ ◌>>◌
  abbrev pub ◌>>=◌ : {A B : Type 0} → Operation E S A → (A → Operation E S B) → Operation E S B
  ◌>>=◌ f g s m = operate_then (f s m) g

  abbrev pub ◌>>◌ : {B : Type 0} → Operation E S (Unit {0}) → Operation E S B → Operation E S B
  f >> g = f >>= λ _. g

  abbrev pub pure : {A : Type 0} → A → Operation E S A
  pure a s m = (s, done a m)

  abbrev pub fail : {A : Type 0} → E → Operation E S A
  fail e s m = (s, failed e m)

  abbrev pub panic : {A : Type 0} → Operation E S A
  panic s m = (s, stuck)

  abbrev pub on_memory : {A : Type 0} → (Error.Error → E) → M A → Operation E S A
  on_memory wrap f s m = (s, from_outcome wrap (f m))
