-- ===== src/Wispy.antt =====
-- wispy/src/primitive_set.rs: the primitives of the Cayley table over those of R7RS. The table and its
-- elements are of the crate wispy-table, and so parameters.
pub mod Loads
pub mod Program
use wispy_vm.Prelude.{ℕ, Bool, false, ◌&&◌, not, none, some, ltb, ◌==◌, if◌then◌else◌}
use wispy_vm.Primitive.{Operation, on_memory}
use wispy_vm.R7rs.{SmallError, SmallPrimitiveSet, Parts, vm, operate}
use wispy_vm.Vm.Cons
use wispy_vm.Vm.Cons.{Cons}
use wispy_vm.Vm.Memory.{M, Outcome, ok, err, stuck, ◌>>=◌, pure, cdr}
use wispy_vm.Vm.Memory.Stack.{boolean, null, push, pop, push_boolean}
use wispy_vm.Vm.Tags.{
  pair_type, null_type, boolean_type, procedure_type, symbol_type, string_type, character_type,
  vector_type,
}
use wispy_vm.Vm.Value
use wispy_vm.Vm.Value.{Value}
use wispy_vm.Vm.ValueInner.{is_cons, from_i64, to_i64}

-- The table, total on 32 by 32 elements, and the names of its elements.
pub record Table : Type 0 where
  pub cayley : ℕ → ℕ → ℕ
  pub top : ℕ
  pub bottom : ℕ
  pub cayley_true : ℕ
  pub t_pair : ℕ
  pub t_sym : ℕ
  pub t_cls : ℕ
  pub t_str : ℕ
  pub t_vec : ℕ
  pub t_char : ℕ

abbrev pub prim_dot : ℕ
prim_dot = 600

abbrev pub prim_tau : ℕ
prim_tau = 601

abbrev pub prim_type_valid : ℕ
prim_type_valid = 602

module _ (table : Table) where
  -- `if let Ok(false_cons) = …`: an error of the read is not one of the function.
  unfoldable pub boolean_element : Cons → Outcome Cons → M ℕ
  boolean_element c (ok f m') m = ok (if Cons.eq c f then table.bottom else table.cayley_true) m
  boolean_element c (err e m') m = ok table.top m
  boolean_element c stuck m = stuck

  -- The match on the tag of the `cdr`.
  unfoldable pub tag_element : Cons → ℕ → M ℕ
  unfolding boolean_element
  tag_element c t m =
      if t == pair_type
      then ok table.t_pair m
      else if t == null_type
      then ok table.top m
      else if t == boolean_type
      then boolean_element c (boolean false m) m
      else if t == procedure_type
      then ok table.t_cls m
      else if t == symbol_type
      then ok table.t_sym m
      else if t == string_type
      then ok table.t_str m
      else if t == character_type
      then ok table.t_char m
      else if t == vector_type
      then ok table.t_vec m
      else ok table.top m

  unfoldable pub rib_element : Cons → M ℕ
  unfolding tag_element
  rib_element c = do
    tail ← cdr c
    elim (Value.to_cons tail) [ none ↦ pure table.t_pair | some d ↦ tag_element c (Cons.tag d) ]

  unfoldable pub null_element : Cons → Outcome Cons → M ℕ
  unfolding rib_element
  null_element c (ok nil m') m = (if Cons.eq c nil then pure table.top else rib_element c) m
  null_element c (err e m') m = rib_element c m
  null_element c stuck m = stuck

  unfoldable pub stak_tag_to_cayley : Value → M ℕ
  unfolding null_element
  stak_tag_to_cayley v m = if is_cons v then null_element v (null m) m else ok table.top m

  unfoldable pub dot : ℕ → ℕ → ℕ
  dot a b = if ltb a 32 && ltb b 32 then table.cayley a b else table.bottom

  unfoldable pub type_valid : ℕ → ℕ → Bool
  type_valid op tag =
      if ltb op 32 && ltb tag 32 then not (table.cayley op tag == table.bottom) else false

  unfoldable pub dot_primitive : M (Unit {0})
  unfolding dot
  dot_primitive = do b ← pop; a ← pop; push (from_i64 (dot (to_i64 a) (to_i64 b)))

  unfoldable pub tau_primitive : M (Unit {0})
  tau_primitive = do v ← pop; tag ← stak_tag_to_cayley v; push (from_i64 tag)

  unfoldable pub type_valid_primitive : M (Unit {0})
  unfolding type_valid
  type_valid_primitive = do tag ← pop; op ← pop; push_boolean (type_valid (to_i64 op) (to_i64 tag))

  -- `operate` of `WispyPrimitiveSet`
  unfoldable pub operate_wispy :
      {D G F P E C X : Type 0}
      → ℕ
      → Parts D G F P E C X
      → ℕ
      → Operation SmallError (SmallPrimitiveSet D F C) (Unit {0})
  unfolding dot_primitive tau_primitive type_valid_primitive
  operate_wispy fuel parts primitive =
      if primitive == prim_dot
      then on_memory vm dot_primitive
      else if primitive == prim_tau
      then on_memory vm tau_primitive
      else if primitive == prim_type_valid
      then on_memory vm type_valid_primitive
      else operate fuel parts primitive
