-- ===== src/Time.antt =====
-- The crate time: the interface of time/src/clock.rs, the clocks, and the primitives
-- of primitive_set.rs.
use wispy_vm.Prelude.{ℕ, zero, suc, ◌+◌, ◌*◌, ◌%◌, ◌^◌, Bool, false, Option, none, some}
use wispy_vm.Primitive.{Operation, done, failed, ◌>>=◌, fail, on_memory}
use wispy_vm.Vm.Error
use wispy_vm.Vm.Memory.Stack.{push}
use wispy_vm.Vm.ValueInner.{from_i64}

-- `trait Clock`, over the states `S` of its surroundings; `none` is an error of the clock.
pub record Clock (S : Type 0) : Type 0 where
  pub current_jiffy : S → S × Option ℕ
  pub jiffies_per_second : ℕ

-- `impl Clock for VoidClock`
unfoldable pub void_clock : Clock (Unit {0})
void_clock = record { current_jiffy = λ s. (s, some 0); jiffies_per_second = 1 }

abbrev pub nanoseconds_per_second : ℕ
nanoseconds_per_second = 1000000000

-- `impl Clock for OsClock`: `now` is the time since the epoch in nanoseconds, none before it. The number
-- of 128 bits becomes one of 64.
unfoldable pub os_clock : {S : Type 0} → (S → S × Option ℕ) → Clock S
os_clock now = record {
  current_jiffy = λ s.
      let (s', time) = now s in
      (s', elim time [ none ↦ none | some nanoseconds ↦ some (nanoseconds % 2 ^ 64) ]);
  jiffies_per_second = nanoseconds_per_second;
}

-- `impl Clock for LibcClock`, whose call gives the seconds, as the pattern of an i64, and nanoseconds.
-- The product and the sum of the source panic at an overflow in a build with overflow checks.
unfoldable pub libc_clock : {S : Type 0} → (S → S × ℕ × ℕ) → Clock S
libc_clock clock_gettime = record {
  current_jiffy = λ s.
      let time = clock_gettime s in
      (time.0, some ((time.1 * nanoseconds_per_second + time.2) % 2 ^ 64));
  jiffies_per_second = nanoseconds_per_second;
}

-- `enum PrimitiveError`
pub data PrimitiveError : Type 0 where
  current_jiffy : PrimitiveError
  vm : Error.Error → PrimitiveError

unfoldable pub is_critical : PrimitiveError → Bool
unfolding Error.is_critical
is_critical current_jiffy = false
is_critical (vm e) = Error.is_critical e

module _ {S : Type 0} (clock : Clock S) where
  unfoldable pub read_clock : Operation PrimitiveError S ℕ
  read_clock s m =
      let (s', result) = clock.current_jiffy s in
      elim result [ some jiffy ↦ (s', done jiffy m) | none ↦ (s', failed current_jiffy m) ]

  -- `operate` of `TimePrimitiveSet`
  unfoldable pub operate_time : ℕ → Operation PrimitiveError S (Unit {0})
  unfolding read_clock
  operate_time zero = do jiffy ← read_clock; on_memory vm (push (from_i64 jiffy))
  operate_time (suc zero) = on_memory vm (push (from_i64 clock.jiffies_per_second))
  operate_time (suc (suc p)) = fail (vm Error.illegal_primitive)
