-- ===== src/File/Utility.antt =====
-- file/src/file_system/utility.rs: the path of a file from its list of characters.
pub mod Fuel
mod Tests
use wispy_vm.Prelude.{ℕ, zero, suc, ◌%◌, List, [], ◌∷◌, ◌++◌, length, ltb, if◌then◌else◌}
use wispy_vm.Vm.Cons
use wispy_vm.Vm.Memory.{Memory, Outcome, ok, err, car, cdr}
use wispy_vm.Vm.Memory.Stack.{null}
use wispy_vm.Vm.Value.{Value}
use wispy_vm.Vm.ValueInner.{to_i64}

-- What decoding gives: a path, `none` where the source returns it, or `stuck` where the model ran out of
-- fuel.
pub data Decoded : Type 0 where
  path : List ℕ → Decoded
  failed : Decoded
  stuck : Decoded

-- `.ok()?`
unfoldable pub or_failed : {A : Type 0} → Outcome A → (A → Decoded) → Decoded
or_failed (ok a m) f = f a
or_failed (err e m) f = failed
or_failed Outcome.stuck f = stuck

-- The `while` loop, with the bytes of the path so far, of which there are at most `capacity`.
unfoldable pub decode_loop : ℕ → ℕ → Memory → Value → List ℕ → Decoded
unfolding or_failed
decode_loop zero capacity m list bytes = stuck
decode_loop (suc fuel) capacity m list bytes = or_failed (null m) (λ nil.
    let more = or_failed (car list m) (λ v.
      let rest =
        or_failed (cdr list m)
          (λ tail. decode_loop fuel capacity m tail (bytes ++ to_i64 v % 256 ∷ [])) in
      if ltb (length bytes) capacity then rest else failed) in
    if Cons.eq list nil then path bytes else more)

unfoldable pub decode_path : ℕ → ℕ → Memory → Value → Decoded
unfolding decode_loop
decode_path fuel capacity m list = decode_loop fuel capacity m list []
