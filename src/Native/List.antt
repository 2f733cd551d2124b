-- ===== src/Native/List.antt =====
-- native/src/list.rs: the list primitives.
pub mod Search
mod Tests
use wispy_vm.Prelude.{ℕ, zero, suc, ◌-◌, false, Option, none, some, ◌==◌, if◌then◌else◌}
use wispy_vm.Vm.Error.{Error}
use wispy_vm.Vm.Tags.{pair_type}
use wispy_vm.Vm.ValueInner.{from_i64, to_i64}
use wispy_vm.Vm.Cons
use wispy_vm.Vm.Cons.{Cons}
use wispy_vm.Vm.Value
use wispy_vm.Vm.Value.{Value}
use wispy_vm.Vm.Memory.{M, Outcome, ok, stuck, and_then, ◌>>=◌, ◌>>◌, pure, fail, car, cdr}
use wispy_vm.Vm.Memory.Gc.{allocate}
use wispy_vm.Vm.Memory.Stack.{boolean, null, pop, push, list_length}

-- The `while` loop of `assq`: the first entry with the key, or `y`.
unfoldable pub assq_loop : ℕ → Value → Cons → Cons → M Cons
assq_loop zero x xs y m = stuck
assq_loop (suc fuel) x xs y m = and_then (null m) (λ nil m'.
    let more : Outcome Cons = and_then (cdr xs m') (λ next. assq_loop fuel x next y) in
    let entry : Outcome Cons =
      (do cell ← car xs; key ← car cell; if Value.eq x key then pure cell else λ _. more) m' in
    if Cons.eq xs nil then ok y m' else entry)

-- The `while` loop of `memq`: the first tail that starts with the value, or `y`.
unfoldable pub memq_loop : ℕ → Value → Cons → Cons → M Cons
memq_loop zero x xs y m = stuck
memq_loop (suc fuel) x xs y m = and_then (null m) (λ nil m'.
    let more : Outcome Cons = and_then (cdr xs m') (λ next. memq_loop fuel x next y) in
    let found : Outcome Cons =
      and_then (car xs m') (λ v m''. if Value.eq x v then ok xs m'' else more) in
    if Cons.eq xs nil then ok y m' else found)

-- The `while` loop of `list-tail`: it stops early where there is no pair.
unfoldable pub tail_pairs : ℕ → Value → M Value
tail_pairs zero xs m = ok xs m
tail_pairs (suc index) xs m = elim (Value.to_cons xs) [
  | none ↦ ok xs m
  | some c ↦ and_then (cdr c m) (λ next m'.
      let more = tail_pairs index next m' in if Value.tag next == pair_type then more else ok xs m')
]

unfoldable pub assq : ℕ → M (Unit {0})
assq fuel = do xs ← pop; x ← pop; f ← boolean false; y ← assq_loop fuel x xs f; push y

unfoldable pub cons_list : M (Unit {0})
cons_list = do d ← pop; a ← pop; rib ← allocate a (Value.set_tag d pair_type); push rib

unfoldable pub memq : ℕ → M (Unit {0})
memq fuel = do xs ← pop; x ← pop; f ← boolean false; y ← memq_loop fuel x xs f; push y

unfoldable pub list_tail : M (Unit {0})
list_tail = do index ← pop; xs ← pop; tail ← tail_pairs (to_i64 index) xs; push tail

unfoldable pub length_list : ℕ → M (Unit {0})
length_list fuel = do xs ← pop; n ← list_length fuel xs; push (from_i64 n)

-- `operate` of `ListPrimitiveSet`: the primitives in the order of `ListPrimitive`. `fuel` bounds the
-- loops down lists.
unfoldable pub operate_list : ℕ → ℕ → M (Unit {0})
operate_list fuel zero = assq fuel
operate_list fuel (suc zero) = cons_list
operate_list fuel (suc (suc zero)) = memq fuel
operate_list fuel (suc (suc (suc zero))) = list_tail
operate_list fuel (suc (suc (suc (suc zero)))) = length_list fuel
operate_list fuel (suc (suc (suc (suc (suc p))))) = fail Error.illegal_primitive
