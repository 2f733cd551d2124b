-- ===== src/R7rs/Illegal.antt =====
-- The numbers that identify no primitive of r7rs/src/small/primitive.rs.
use wispy_vm.Prelude.{ℕ, ◌≡◌, ◌≢◌, false, leb, arith, ne→==}
use wispy_vm.Primitive.{failed}
use wispy_vm.R7rs.{SmallPrimitiveSet, Parts, vm, between, operate, operate_sets}
use wispy_vm.R7rs.Identifiers.{Primitive, identifier}
use wispy_vm.Vm.Error
use wispy_vm.Vm.Memory.{Memory}

-- The number is the identifier of no primitive.
abbrev pub IsIllegal : ℕ → Type 0
IsIllegal n = (p : Primitive) → n ≢ identifier p

module _ (n : ℕ) (illegal : IsIllegal n) where
  not_core : leb n 16 ≡ false
  not_core = ground (
    arith,
    illegal Primitive.rib,
    illegal Primitive.close,
    illegal Primitive.unbind,
    illegal Primitive.is_rib,
    illegal Primitive.car,
    illegal Primitive.cdr,
    illegal Primitive.tag,
    illegal Primitive.set_car,
    illegal Primitive.set_cdr,
    illegal Primitive.equal,
    illegal Primitive.less_than,
    illegal Primitive.add,
    illegal Primitive.subtract,
    illegal Primitive.multiply,
    illegal Primitive.divide,
    illegal Primitive.remainder,
    illegal Primitive.expt,
  )

  not_type_check : between 50 51 n ≡ false
  not_type_check = ground (arith, illegal Primitive.null, illegal Primitive.pair)

  not_list : between 60 64 n ≡ false
  not_list = ground (
    arith,
    illegal Primitive.assq,
    illegal Primitive.cons,
    illegal Primitive.memq,
    illegal Primitive.tail,
    illegal Primitive.length,
  )

  not_equal : between 70 71 n ≡ false
  not_equal = ground (arith, illegal Primitive.eqv, illegal Primitive.equal_inner)

  not_device : between 100 102 n ≡ false
  not_device =
      ground (arith, illegal Primitive.read, illegal Primitive.write, illegal Primitive.write_error)

  not_file : between 200 206 n ≡ false
  not_file = ground (
    arith,
    illegal Primitive.open_file,
    illegal Primitive.close_file,
    illegal Primitive.read_file,
    illegal Primitive.write_file,
    illegal Primitive.delete_file,
    illegal Primitive.exists_file,
    illegal Primitive.flush_file,
  )

  not_process : between 300 301 n ≡ false
  not_process =
      ground (arith, illegal Primitive.command_line, illegal Primitive.environment_variables)

  not_clock : between 400 401 n ≡ false
  not_clock = ground (arith, illegal Primitive.current_jiffy, illegal Primitive.jiffies_per_second)

  not_inexact : between 500 510 n ≡ false
  not_inexact = ground (
    arith,
    illegal Primitive.exponentiation,
    illegal Primitive.logarithm,
    illegal Primitive.infinite,
    illegal Primitive.nan,
    illegal Primitive.sqrt,
    illegal Primitive.cos,
    illegal Primitive.sin,
    illegal Primitive.tan,
    illegal Primitive.acos,
    illegal Primitive.asin,
    illegal Primitive.atan,
  )

  module _ {D G F P E C X : Type 0} (fuel : ℕ) (parts : Parts D G F P E C X) where
    -- A number that identifies no primitive is an error of the machine, of which the
    -- memory and the states of the parts stay as they are.
    pub operate-illegal :
        (s : SmallPrimitiveSet D F C) (m : Memory)
        → operate fuel parts n s m ≡ (s, failed (vm Error.illegal_primitive) m)
    unfolding operate operate_sets
    operate-illegal s m = rw (
      not_core,
      ne→== n 40 (illegal Primitive.halt),
      not_type_check,
      not_list,
      not_equal,
      ne→== n 80 (illegal Primitive.quotient),
      not_device,
      not_file,
      not_process,
      not_clock,
      not_inexact,
    )
