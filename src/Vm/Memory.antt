-- ===== src/Vm/Memory.antt =====
-- vm/src/memory.rs: the state of a memory, the access to its cells, and allocation.
pub mod Gc
pub mod Stack
pub mod Text
pub mod Access
pub mod Cells
pub mod Sample
mod Tests
use wispy_vm.Prelude.{
  ℕ, zero, suc, ◌+◌, ◌*◌, ◌/◌, Bool, true, false, Option, none, some, List, leb, if◌then◌else◌,
  length, get_elem?, set as set_at,
}
use wispy_vm.Vm.Error.{Error}
use wispy_vm.Vm.Cons
use wispy_vm.Vm.Cons.{Cons, Tag}
use wispy_vm.Vm.Value
use wispy_vm.Vm.Value.{Value}

-- `struct Memory`. The field `false` is spelled `false_cons`.
pub record Memory : Type 0 where
  pub code : Cons
  pub stack : Cons
  pub false_cons : Cons
  pub register : Cons
  pub allocation_index : ℕ
  pub space : Bool
  pub heap : List Value

-- What a method leaves: a result or an error, with the memory as it then is. `stuck` is no outcome
-- of the program: a loop of the model ran out of fuel.
pub data Outcome (A : Type 0) : Type 0 where
  ok : A → Memory → Outcome A
  err : Error → Memory → Outcome A
  stuck : Outcome A

abbrev pub M : Type 0 → Type 0
M A = Memory → Outcome A

abbrev pub and_then : {A B : Type 0} → Outcome A → (A → M B) → Outcome B
and_then (ok a m) f = f a m
and_then (err e m) f = err e m
and_then stuck f = stuck

infixl 5 ◌>>=◌ ◌>>◌
abbrev pub ◌>>=◌ : {A B : Type 0} → M A → (A → M B) → M B
◌>>=◌ f g m = and_then (f m) g

abbrev pub ◌>>◌ : {B : Type 0} → M (Unit {0}) → M B → M B
f >> g = f >>= λ _. g

abbrev pub pure : {A : Type 0} → A → M A
pure a m = ok a m

abbrev pub fail : {A : Type 0} → Error → M A
fail e m = err e m

-- A field of the memory, or what is computed from fields.
abbrev pub gets : {A : Type 0} → (Memory → A) → M A
gets f m = ok (f m) m

abbrev pub modify : (Memory → Memory) → M (Unit {0})
modify f m = ok tt (f m)

abbrev pub cons_field_count : ℕ
cons_field_count = 2

unfoldable pub size : Memory → ℕ
size m = length m.heap

unfoldable pub space_size : Memory → ℕ
unfolding size
space_size m = size m / 2

unfoldable pub is_out_of_memory : Memory → Bool
is_out_of_memory m = leb (space_size m) m.allocation_index

unfoldable pub allocation_start : Memory → ℕ
allocation_start m = if m.space then space_size m else 0

unfoldable pub allocation_end : Memory → ℕ
allocation_end m = allocation_start m + m.allocation_index

-- The parameter `G` of the source chooses between debug assertions, so it is left out.
unfoldable pub get : ℕ → M Value
get i m = elim (get_elem? m.heap i) [ none ↦ err Error.invalid_memory_access m | some v ↦ ok v m ]

unfoldable pub set : ℕ → Value → M (Unit {0})
set i v m = elim (get_elem? m.heap i) [
  | none ↦ err Error.invalid_memory_access m
  | some _ ↦ ok tt (record m { heap = set_at m.heap i v })
]

unfoldable pub car : Cons → M Value
car c = get (Cons.index c)

unfoldable pub cdr : Cons → M Value
cdr c = get (Cons.index c + 1)

unfoldable pub set_field : Cons → ℕ → Value → M (Unit {0})
set_field c i v = set (Cons.index c + i) v

unfoldable pub set_car : Cons → Value → M (Unit {0})
set_car c v = set_field c 0 v

-- Keeps the tag that the field has.
unfoldable pub set_cdr : Cons → Value → M (Unit {0})
set_cdr c v = do old ← get (Cons.index c + 1); set_field c 1 (Value.set_tag v (Value.tag old))

unfoldable pub set_raw_cdr : Cons → Value → M (Unit {0})
set_raw_cdr c v = set_field c 1 v

-- The garbage accessors differ from the others in their debug assertions alone.
unfoldable pub garbage_car : Cons → M Value
garbage_car c = get (Cons.index c)

unfoldable pub garbage_cdr : Cons → M Value
garbage_cdr c = get (Cons.index c + 1)

unfoldable pub set_garbage_car : Cons → Value → M (Unit {0})
set_garbage_car c v = set_field c 0 v

unfoldable pub set_garbage_cdr : Cons → Value → M (Unit {0})
set_garbage_cdr c v = set_field c 1 v

unfoldable pub bump : Memory → Memory
bump m = record m { allocation_index = m.allocation_index + cons_field_count }

unfoldable pub allocate_unchecked : Value → Value → M Cons
allocate_unchecked a d = do
  full ← gets is_out_of_memory
  if full then fail Error.out_of_memory else do
    cons ← gets (λ m. Cons.new (allocation_end m))
    modify bump
    set_car cons a
    set_raw_cdr cons d
    pure cons
