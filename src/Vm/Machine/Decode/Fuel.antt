-- ===== src/Vm/Machine/Decode/Fuel.antt =====
-- The loop of `decode_ribs` in vm/src/vm.rs takes a byte at least in each round.
use wispy_vm.Prelude.{
  ℕ, zero, suc, ◌+◌, ◌-◌, ◌*◌, ◌/◌, ◌%◌, ◌≤◌, ◌≡◌, refl, Option, none, some, List, [], ◌∷◌, ◌==◌,
  length, arith, Bool-cases, inl, inr,
}
use wispy_vm.Vm.Value.{Number}
use wispy_vm.Vm.Memory.{Memory, M, Outcome, ok, err, stuck, and_then, ◌>>=◌}
use wispy_vm.Vm.Machine.Integer.{
  integer_base, number_base, tag_base, share_base, u128, tail_loop, decode_integer_tail,
  decode_number,
}
use wispy_vm.Vm.Memory.Stack.{pop, push, top}
use wispy_vm.Vm.Machine.Decode.{bytecode_end, remember, recall, make_rib, decode_rib, decode_loop}

-- The integer that is read leaves no more than there was.
abbrev TailShorter : ℕ → Option (ℕ × List ℕ) → Type 0
TailShorter n none = Unit {0}
TailShorter n (some (_, rest)) = length rest ≤ n

TailShorter-more : {a b : ℕ} (o : Option (ℕ × List ℕ)) → a ≤ b → TailShorter a o → TailShorter b o
TailShorter-more none h t = tt
TailShorter-more (some (_, rest)) h t = omega arith

TailShorter-loop :
    (input : List ℕ) (x y base : ℕ) → TailShorter (length input) (tail_loop input x y base)
unfolding tail_loop
TailShorter-loop [] x y base = elim (Bool-cases (x % 2 == 0)) [
  | inl e ↦ rw e (omega arith)
  | inr e ↦ rw e tt
]
TailShorter-loop (b ∷ input) x y base = elim (Bool-cases (x % 2 == 0)) [
  | inl e ↦ rw e (omega arith)
  | inr e ↦ rw e (
      TailShorter-more _ (omega arith)
        (TailShorter-loop input b ((y + b / 2 * base) % u128) (base * integer_base % u128)))
]

-- An outcome with no more input than there was.
abbrev Shorter : ℕ → Outcome (List ℕ) → Type 0
Shorter n (ok rest m) = length rest ≤ n
Shorter n (err e m) = Unit {0}
Shorter n stuck = Unit {0}

Shorter-bind :
    {A : Type 0} (n : ℕ) (out : Outcome A) (f : A → M (List ℕ))
    → ((a : A) (m : Memory) → Shorter n (f a m))
    → Shorter n (and_then out f)
Shorter-bind n (ok a m) f h = h a m
Shorter-bind n (err e m) f h = tt
Shorter-bind n stuck f h = tt

Shorter-tail :
    (input : List ℕ) (x base : ℕ) (m : Memory) (f : ℕ × List ℕ → M (List ℕ))
    → ((k : ℕ) (rest : List ℕ) (m : Memory)
        → length rest ≤ length input
        → Shorter (length input) (f (k, rest) m))
    → Shorter (length input) ((bytecode_end (decode_integer_tail input x base) >>= f) m)
unfolding decode_integer_tail
Shorter-tail input x base m f h =
    go (tail_loop input x (x / 2) base) (TailShorter-loop input x (x / 2) base)
  where
    go :
        (o : Option (ℕ × List ℕ))
        → TailShorter (length input) o
        → Shorter (length input) ((bytecode_end o >>= f) m)
    go none t = tt
    go (some (k, rest)) t = h k rest m t

decode_rib-Shorter :
    (float : ℕ → Number) (head : ℕ) (input : List ℕ) (m : Memory)
    → Shorter (length input) (decode_rib float head input m)
unfolding decode_rib
decode_rib-Shorter float head input m = elim (Bool-cases (head % 2 == 0)) [
  | inl even ↦ elim (Bool-cases (head / 2 == 0)) [
    | inl share ↦
        rw (even, share)
          (Shorter-bind (length input) (remember m) (λ _ m'. ok input m') (λ a m'. omega arith))
    | inr back ↦
        rw (even, back)
          (Shorter-tail input (head / 2 - 1) share_base m _ (λ k rest m' h.
            Shorter-bind (length input) (recall k m') (λ _ m''. ok rest m'') (λ a m''. h)))
  ]
  | inr odd ↦ elim (Bool-cases (head / 2 % 2 == 0)) [
    | inl rib ↦
        rw (odd, rib)
          (Shorter-bind (length input) (pop m) _ (λ d m'.
            Shorter-bind (length input) (top m') _ (λ a m''.
              Shorter-tail input (head / 4) tag_base m'' _ (λ k rest m₃ h.
                Shorter-bind (length input) (make_rib m.stack a d k m₃) (λ _ m₄. ok rest m₄)
                  (λ _ m₄. h)))))
    | inr number ↦
        rw (odd, number)
          (Shorter-tail input (head / 4) number_base m _ (λ k rest m' h.
            Shorter-bind (length input) (push (decode_number float k) m') (λ _ m''. ok rest m'')
              (λ a m''. h)))
  ]
]

and_then-Shorter :
    (n : ℕ) (out : Outcome (List ℕ)) (f g : List ℕ → M (Unit {0}))
    → Shorter n out
    → ((rest : List ℕ) (m : Memory) → length rest ≤ n → f rest m ≡ g rest m)
    → and_then out f ≡ and_then out g
and_then-Shorter n (ok rest m) f g s h = h rest m s
and_then-Shorter n (err e m) f g s h = refl
and_then-Shorter n stuck f g s h = refl

-- With as many rounds as there are bytes, the loop of the decoder ends by itself: any other number of
-- rounds that is enough gives the same.
pub decode_loop_fuel :
    (float : ℕ → Number) (fuel more : ℕ) (input : List ℕ) (m : Memory)
    → length input ≤ fuel
    → length input ≤ more
    → decode_loop float fuel input m ≡ decode_loop float more input m
unfolding decode_loop
decode_loop_fuel float zero zero input m h h' = refl
decode_loop_fuel float fuel more [] m h h' = refl
decode_loop_fuel float zero (suc more) (head ∷ input) m h h' = absurd (omega arith)
decode_loop_fuel float (suc fuel) zero (head ∷ input) m h h' = absurd (omega arith)
decode_loop_fuel float (suc fuel) (suc more) (head ∷ input) m h h' =
    and_then-Shorter (length input) (decode_rib float head input m) _ _
      (decode_rib-Shorter float head input m)
      (λ rest m' s. decode_loop_fuel float fuel more rest m' (omega arith) (omega arith))
