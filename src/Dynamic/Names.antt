-- ===== src/Dynamic/Names.antt =====
-- dynamic/src/primitive_set.rs: the list of the names of the functions, in the register.
use wispy_vm.Prelude.{ℕ, List, [], ◌∷◌}
use wispy_vm.Vm.Memory.{M, ◌>>=◌, ◌>>◌, pure, gets, modify, set_car}
use wispy_vm.Vm.Memory.Stack.{null, cons, push}
use wispy_vm.Vm.Memory.Text.{build_raw_string}

unfoldable pub list_name : List ℕ → M (Unit {0})
list_name name = do
  nil ← null
  register ← gets (λ m. m.register)
  list ← cons nil register
  modify (λ m. record m { register = list })
  string ← build_raw_string name
  register' ← gets (λ m. m.register)
  set_car register' string

-- The loop over the reversed functions: the last name comes first.
unfoldable pub list_names : List (List ℕ) → M (Unit {0})
unfolding list_name
list_names [] = pure tt
list_names (name ∷ names) = do list_names names; list_name name

unfoldable pub push_names : List (List ℕ) → M (Unit {0})
unfolding list_names
push_names names = do
  nil ← null
  modify (λ m. record m { register = nil })
  list_names names
  register ← gets (λ m. m.register)
  push register
