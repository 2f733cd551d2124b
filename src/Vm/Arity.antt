-- ===== src/Vm/Arity.antt =====
-- vm/src/vm.rs: argument and parameter counts in one number.
use wispy_vm.Prelude.{ℕ, ◌+◌, ◌*◌, ◌/◌, ◌%◌, ◌≡◌, Bool, arith, ◌==◌, if◌then◌else◌}

pub record Arity : Type 0 where
  pub count : ℕ
  pub variadic : Bool

unfoldable pub parse_arity : ℕ → Arity
parse_arity info = record { count = info / 2; variadic = info % 2 == 1 }

unfoldable pub build_arity : Arity → ℕ
build_arity a = 2 * a.count + (if a.variadic then 1 else 0)

-- Every arity is parsed from what it builds, and every number is built from what it parses to.
pub parse_arity-build_arity :
    (a : Arity) (info : ℕ)
    → (parse_arity (build_arity a) ≡ a) × (build_arity (parse_arity info) ≡ info)
unfolding parse_arity build_arity
parse_arity-build_arity a info = (ground arith, ground arith)
