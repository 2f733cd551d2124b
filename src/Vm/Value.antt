-- ===== src/Vm/Value.antt =====
-- vm/src/value.rs: a word that is a cons or a number.
use wispy_vm.Prelude.{ℕ, Bool, not, ◌&&◌, Option, none, some, ◌==◌, if◌then◌else◌}
use wispy_vm.Vm.ValueInner.{is_cons, from_i64}
use wispy_vm.Vm.Cons

-- `struct Value(u64)` and `struct Number(i64)`. The conversions from and to a cons and a number
-- keep the word: `assume_cons`, `assume_number` and `From` are the identity.
abbrev pub Value : Type 0
Value = ℕ

abbrev pub Number : Type 0
Number = ℕ

pub data TypedValue : Type 0 where
  cons : Cons.Cons → TypedValue
  number : Number → TypedValue

unfoldable pub to_typed : Value → TypedValue
unfolding is_cons
to_typed v = if is_cons v then cons v else number v

unfoldable pub to_cons : Value → Option Cons.Cons
unfolding to_typed
to_cons v = elim (to_typed v) [ cons c ↦ some c | number n ↦ none ]

unfoldable pub to_number : Value → Option Number
unfolding to_typed
to_number v = elim (to_typed v) [ cons c ↦ none | number n ↦ some n ]

unfoldable pub tag : Value → Cons.Tag
unfolding to_cons Cons.tag
tag v = elim (to_cons v) [ none ↦ 0 | some c ↦ Cons.tag c ]

unfoldable pub set_tag : Value → Cons.Tag → Value
unfolding to_cons Cons.set_tag
set_tag v t = elim (to_cons v) [ none ↦ v | some c ↦ Cons.set_tag c t ]

-- `Default` is the number zero.
unfoldable pub zero_value : Value
unfolding from_i64
zero_value = from_i64 0

-- `impl PartialEq`: conses by their addresses, numbers by their words.
unfoldable pub eq : Value → Value → Bool
unfolding is_cons Cons.eq
eq a b = if is_cons a then is_cons b && Cons.eq a b else not (is_cons b) && (a == b)
