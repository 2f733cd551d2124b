-- ===== src/File/Utility/Fuel.antt =====
-- The fuel of decoding a path: file/src/file_system/utility.rs ends for any list, a cyclic one too.
use wispy_vm.File.Utility.{Decoded, stuck, or_failed, decode_loop, decode_path}
use wispy_vm.Prelude.{
  Bool, ℕ, zero, suc, ◌+◌, ◌%◌, ◌<◌, ◌≤◌, ◌≡◌, ◌≢◌, refl, true, false, List, [], ◌∷◌, ◌++◌, length,
  ltb, ltb→lt, arith, length-append, if◌then◌else◌,
}
use wispy_vm.Vm.Cons
use wispy_vm.Vm.Memory.{Memory, Outcome, ok, err, get, car, cdr}
use wispy_vm.Vm.Memory.Stack.{null}
use wispy_vm.Vm.Value.{Value}
use wispy_vm.Vm.ValueInner.{to_i64}

get-ne-stuck : (i : ℕ) (m : Memory) → get i m ≢ Outcome.stuck
unfolding get
get-ne-stuck i m h = ground arith

car-ne-stuck : (c : Cons.Cons) (m : Memory) → car c m ≢ Outcome.stuck
unfolding car
car-ne-stuck c m = get-ne-stuck (Cons.index c) m

cdr-ne-stuck : (c : Cons.Cons) (m : Memory) → cdr c m ≢ Outcome.stuck
unfolding cdr
cdr-ne-stuck c m = get-ne-stuck (Cons.index c + 1) m

null-ne-stuck : (m : Memory) → null m ≢ Outcome.stuck
unfolding null
null-ne-stuck m = car-ne-stuck m.false_cons m

or_failed-ne-stuck :
    {A : Type 0} (r : Outcome A) (f : A → Decoded)
    → r ≢ Outcome.stuck
    → ((a : A) → f a ≢ stuck)
    → or_failed r f ≢ stuck
unfolding or_failed
or_failed-ne-stuck (ok a m) f h k = k a
or_failed-ne-stuck (err e m) f h k = λ e'. cc
or_failed-ne-stuck Outcome.stuck f h k = absurd (h refl)

if-ne-stuck :
    (b : Bool) (x y : Decoded)
    → (b ≡ true → x ≢ stuck)
    → (b ≡ false → y ≢ stuck)
    → (if b then x else y) ≢ stuck
if-ne-stuck true x y h k = h refl
if-ne-stuck false x y h k = k refl

decode_loop-ne-stuck :
    (fuel capacity : ℕ) (m : Memory) (list : Value) (bytes : List ℕ)
    → length bytes ≤ capacity
    → capacity < length bytes + fuel
    → decode_loop fuel capacity m list bytes ≢ stuck
unfolding decode_loop
decode_loop-ne-stuck zero capacity m list bytes le h = absurd (omega arith)
decode_loop-ne-stuck (suc fuel) capacity m list bytes le h =
    or_failed-ne-stuck (null m) _ (null-ne-stuck m) (λ nil.
      if-ne-stuck (Cons.eq list nil) _ _ (λ _ e. cc)
        (λ _. or_failed-ne-stuck (car list m) _ (car-ne-stuck list m) (λ v.
          if-ne-stuck (ltb (length bytes) capacity) _ _
            (λ room. or_failed-ne-stuck (cdr list m) _ (cdr-ne-stuck list m) (λ tail.
              let grown = length-append bytes (to_i64 v % 256 ∷ []) in
              let below = ltb→lt (length bytes) capacity room in
              decode_loop-ne-stuck fuel capacity m tail (bytes ++ to_i64 v % 256 ∷ [])
                (omega (arith, grown)) (omega (arith, grown))))
            (λ _ e. cc))))

-- A path is decoded within one round more than it may have bytes, whatever the list is, so that more
-- fuel than the capacity is enough.
pub decode_path-ne-stuck :
    (fuel capacity : ℕ) (m : Memory) (list : Value)
    → capacity < fuel
    → decode_path fuel capacity m list ≢ stuck
unfolding decode_path
decode_path-ne-stuck fuel capacity m list h =
    decode_loop-ne-stuck fuel capacity m list [] (omega arith) (omega arith)
