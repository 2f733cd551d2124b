-- ===== src/R7rs/Identifiers.antt =====
-- r7rs/src/small/primitive.rs: the identifiers of the primitives.
use wispy_vm.Prelude.{ℕ}

-- `enum Primitive`
pub data Primitive : Type 0 where
  rib close unbind is_rib car cdr tag set_car set_cdr equal less_than add subtract : Primitive
  multiply divide remainder expt halt null pair assq cons memq tail length eqv : Primitive
  equal_inner quotient read write write_error open_file close_file read_file : Primitive
  write_file delete_file exists_file flush_file command_line environment_variables : Primitive
  current_jiffy jiffies_per_second exponentiation logarithm infinite nan sqrt cos : Primitive
  sin tan acos asin atan : Primitive

-- The discriminants, which the constants of `impl Primitive` name.
abbrev pub identifier : Primitive → ℕ
identifier rib = 0
identifier close = 1
identifier unbind = 2
identifier is_rib = 3
identifier car = 4
identifier cdr = 5
identifier tag = 6
identifier set_car = 7
identifier set_cdr = 8
identifier equal = 9
identifier less_than = 10
identifier add = 11
identifier subtract = 12
identifier multiply = 13
identifier divide = 14
identifier remainder = 15
identifier expt = 16
identifier halt = 40
identifier null = 50
identifier pair = 51
identifier assq = 60
identifier cons = 61
identifier memq = 62
identifier tail = 63
identifier length = 64
identifier eqv = 70
identifier equal_inner = 71
identifier quotient = 80
identifier read = 100
identifier write = 101
identifier write_error = 102
identifier open_file = 200
identifier close_file = 201
identifier read_file = 202
identifier write_file = 203
identifier delete_file = 204
identifier exists_file = 205
identifier flush_file = 206
identifier command_line = 300
identifier environment_variables = 301
identifier current_jiffy = 400
identifier jiffies_per_second = 401
identifier exponentiation = 500
identifier logarithm = 501
identifier infinite = 502
identifier nan = 503
identifier sqrt = 504
identifier cos = 505
identifier sin = 506
identifier tan = 507
identifier acos = 508
identifier asin = 509
identifier atan = 510
