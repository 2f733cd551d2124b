-- ===== src/Dynamic.antt =====
-- The crate dynamic: primitives that are functions of the host. Here dynamic/src/error.rs, and the
-- state of the primitive set of primitive_set.rs; the functions, their values and the types of these
-- are of the crate any-fn, and so parameters.
pub mod Table
pub mod Values
pub mod Names
pub mod Primitives
mod Tests
use wispy_vm.Prelude.{ℕ, Bool, true, Option, List, [], ◌∷◌, ◌++◌}
use wispy_vm.Primitive.{Attempt}
use wispy_vm.Vm.Error
use wispy_vm.Vm.Memory.{Memory}
use wispy_vm.Vm.Value.{Value}

-- `enum DynamicError`, over the errors `E` of the crate any-fn.
pub data DynamicError (E : Type 0) : Type 0 where
  any_fn : E → DynamicError E
  foreign_value_expected : DynamicError E
  value_index : DynamicError E
  vm : Error.Error → DynamicError E

unfoldable pub is_critical : {E : Type 0} → DynamicError E → Bool
unfolding Error.is_critical
is_critical (any_fn e) = true
is_critical foreign_value_expected = true
is_critical value_index = true
is_critical (vm e) = Error.is_critical e

-- What a conversion that does not change the memory returns.
pub data Result (E A : Type 0) : Type 0 where
  ok : A → Result E A
  err : DynamicError E → Result E A

-- A function of the host: `T` are type identities, `V` handles of values, and `W` is the state of what
-- they refer to, which a call can change.
pub record AnyFn (E T V W : Type 0) : Type 0 where
  pub arity : ℕ
  pub parameter_types : List T
  pub call : List V → W → W × Result E V

-- `type SchemeType`: the identity of a type, and its conversions from and into Scheme.
pub record SchemeType (E T V : Type 0) : Type 0 where
  pub id : T
  pub from_scheme : Memory → Value → Result E (Option V)
  pub into_scheme : V → Memory → Attempt (DynamicError E) Value

-- `struct DynamicPrimitiveSet`, with the state of the host. `functions` have their names.
pub record DynamicPrimitiveSet (E T V W : Type 0) : Type 0 where
  pub functions : List (List ℕ × AnyFn E T V W)
  pub types : List (SchemeType E T V)
  pub values : List (Option V)
  pub world : W

module _ {E T V W : Type 0} where
  -- A registered type stands behind those that are there.
  unfoldable pub register_type :
      SchemeType E T V → DynamicPrimitiveSet E T V W → DynamicPrimitiveSet E T V W
  register_type ty s = record s { types = s.types ++ ty ∷ [] }

  unfoldable pub register_types :
      List (SchemeType E T V) → DynamicPrimitiveSet E T V W → DynamicPrimitiveSet E T V W
  unfolding register_type
  register_types [] s = s
  register_types (ty ∷ types) s = register_types types (register_type ty s)

  -- `new`, with the types that it registers.
  unfoldable pub new :
      List (SchemeType E T V) → List (List ℕ × AnyFn E T V W) → W → DynamicPrimitiveSet E T V W
  unfolding register_types
  new types functions w =
      register_types types (record { functions = functions; types = []; values = []; world = w })

-- What the host gives: the equality of type identities, and the identity of the type of a value.
pub record Host (E T V W : Type 0) : Type 0 where
  pub same : T → T → Bool
  pub type_id : V → Result E T
