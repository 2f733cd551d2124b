-- ===== src/Dynamic/Primitives.antt =====
-- dynamic/src/primitive_set.rs: the primitives, which list the names of the functions or call one.
use wispy_vm.Dynamic
use wispy_vm.Dynamic.{
  DynamicError, Result, AnyFn, SchemeType, DynamicPrimitiveSet, Host, any_fn,
  foreign_value_expected, value_index, vm,
}
use wispy_vm.Dynamic.Names.{push_names}
use wispy_vm.Dynamic.Table.{allocate}
use wispy_vm.Prelude.{
  ℕ, zero, suc, Option, none, some, List, [], ◌∷◌, ◌==◌, if◌then◌else◌, get_elem?, set as set_at,
  length, leb, map,
}
use wispy_vm.Primitive.{
  Attempt, Operation, done, failed, stuck, ◌>>=◌, ◌>>◌, pure, fail, panic, on_memory,
}
use wispy_vm.Vm.Cons
use wispy_vm.Vm.Error
use wispy_vm.Vm.Memory.{Memory, car, cdr}
use wispy_vm.Vm.Memory.Gc as Gc
use wispy_vm.Vm.Memory.Stack.{null, push, pop}
use wispy_vm.Vm.Tags.{foreign_type}
use wispy_vm.Vm.Value
use wispy_vm.Vm.Value.{Value}
use wispy_vm.Vm.ValueInner.{is_cons, from_i64, to_i64}

abbrev pub maximum_argument_count : ℕ
maximum_argument_count = 16

abbrev pub from_result : {E A : Type 0} → Result E A → Memory → Attempt (DynamicError E) A
from_result (Dynamic.ok a) m = done a m
from_result (Dynamic.err e) m = failed e m

module _ {E T V W : Type 0} (host : Host E T V W) where
  abbrev pub Op : Type 0 → Type 0
  Op A = Operation (DynamicError E) (DynamicPrimitiveSet E T V W) A

  -- The loop of `convert_from_scheme`.
  unfoldable pub convert_from : List (SchemeType E T V) → Memory → Value → T → Result E (Option V)
  convert_from [] m v t = Dynamic.ok none
  convert_from (ty ∷ types) m v t =
      if host.same t ty.id then ty.from_scheme m v else convert_from types m v t

  unfoldable pub convert_from_scheme : Value → T → Op (Option V)
  unfolding convert_from
  convert_from_scheme v t s m = (s, from_result (convert_from s.types m v t) m)

  -- The loop of `convert_into_scheme`: `none` where no type is the one of the value, which is asked for
  -- at each type again.
  unfoldable pub convert_into :
      List (SchemeType E T V) → V → Memory → Attempt (DynamicError E) (Option Value)
  convert_into [] v m = done none m
  convert_into (ty ∷ types) v m =
      let more = convert_into types v m in
      elim (host.type_id v) [
        | Dynamic.err e ↦ failed e m
        | Dynamic.ok t ↦
            if host.same t ty.id
            then elim (ty.into_scheme v m) [
              | done w m' ↦ done (some w) m'
              | failed e m' ↦ failed e m'
              | stuck ↦ stuck
            ]
            else more
      ]

  abbrev pub get_values : Op (List (Option V))
  get_values s m = (s, done s.values m)

  abbrev pub put_values : List (Option V) → Op (Unit {0})
  put_values values s m = (record s { values = values }, done tt m)

  -- `values[index] = Some(value)` in the table that `allocate` leaves, and the cell for it.
  unfoldable pub store : V → Op Value
  store v = do
    values ← get_values
    (index, values') ← on_memory vm (allocate values)
    put_values (set_at values' index (some v))
    nil ← on_memory vm null
    on_memory vm (Gc.allocate (from_i64 index) (Cons.set_tag nil foreign_type))

  unfoldable pub convert_known : V → Op (Option Value)
  unfolding convert_into
  convert_known v s m = (s, convert_into s.types v m)

  unfoldable pub convert_into_scheme : V → Op Value
  unfolding store convert_known
  convert_into_scheme v = do
    converted ← convert_known v
    elim converted [ some w ↦ pure w | none ↦ store v ]

  -- The arguments are popped, and so stand in their order. A vector of them that is full panics.
  unfoldable pub pop_arguments : ℕ → List Value → Op (List Value)
  pop_arguments zero arguments = pure arguments
  pop_arguments (suc count) arguments = do
    v ← on_memory vm pop
    if leb maximum_argument_count (length arguments)
        then panic
        else pop_arguments count (v ∷ arguments)

  -- `cloned_arguments`: the arguments of types that are converted. A type out of bounds panics.
  unfoldable pub clone_arguments : List T → List Value → Op (List (Option V))
  clone_arguments types [] = pure []
  clone_arguments [] (v ∷ arguments) = panic
  clone_arguments (t ∷ types) (v ∷ arguments) = do
    cloned ← convert_from_scheme v t
    rest ← clone_arguments types arguments
    pure (cloned ∷ rest)

  -- The value at an index of the table.
  unfoldable pub value_at : ℕ → Op (Option V)
  value_at index s m = elim (get_elem? s.values index) [
    | none ↦ (s, failed value_index m)
    | some none ↦ (s, failed value_index m)
    | some (some v) ↦ (s, done (some v) m)
  ]

  unfoldable pub copy_cell : Value → Op (Option V)
  unfolding value_at
  copy_cell v = do
    tail ← on_memory vm (cdr v)
    if Value.tag tail == foreign_type
        then (do index ← on_memory vm (car v); value_at (to_i64 index))
        else pure none

  unfoldable pub copy_argument : Value → Op (Option V)
  unfolding copy_cell
  copy_argument v = if is_cons v then copy_cell v else pure none

  -- `copied_arguments`: the foreign values among the arguments. A full vector is an error.
  unfoldable pub copy_arguments : ℕ → List Value → Op (List (Option V))
  unfolding copy_argument
  copy_arguments count [] = pure []
  copy_arguments count (v ∷ arguments) = do
    copied ← copy_argument v
    if leb maximum_argument_count count
        then fail (vm Error.argument_count)
        else do rest ← copy_arguments (suc count) arguments; pure (copied ∷ rest)

  -- A converted argument is taken before a foreign one.
  unfoldable pub choose_arguments : List (Option V) → List (Option V) → Op (List V)
  choose_arguments cloned [] = pure []
  choose_arguments [] (v ∷ copied) = panic
  choose_arguments (some v ∷ cloned) (w ∷ copied) = do
    rest ← choose_arguments cloned copied
    pure (v ∷ rest)
  choose_arguments (none ∷ cloned) (some w ∷ copied) = do
    rest ← choose_arguments cloned copied
    pure (w ∷ rest)
  choose_arguments (none ∷ cloned) (none ∷ copied) = fail foreign_value_expected

  unfoldable pub call_function : AnyFn E T V W → List V → Op V
  call_function function arguments s m =
      let (world, result) = function.call arguments s.world in
      (record s { world = world }, from_result result m)

  unfoldable pub operate_function : AnyFn E T V W → Op (Unit {0})
  operate_function function = do
    arguments ← pop_arguments function.arity []
    cloned ← clone_arguments function.parameter_types arguments
    copied ← copy_arguments 0 arguments
    chosen ← choose_arguments cloned copied
    v ← call_function function chosen
    w ← convert_into_scheme v
    on_memory vm (push w)

  -- `operate` of `DynamicPrimitiveSet`.
  unfoldable pub operate : ℕ → Op (Unit {0})
  operate zero s m = on_memory vm (push_names (map (λ f. f.0) s.functions)) s m
  operate (suc primitive) s m = elim (get_elem? s.functions primitive) [
    | none ↦ (s, failed (vm Error.illegal_primitive) m)
    | some f ↦ operate_function f.1 s m
  ]
