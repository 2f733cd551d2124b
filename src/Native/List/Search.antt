-- ===== src/Native/List/Search.antt =====
-- What the loops of native/src/list.rs and `list_length` of vm/src/memory.rs find in a proper list.
use wispy_vm.Prelude.{
  ℕ, zero, suc, ◌+◌, ◌<◌, ◌≡◌, ◌⊎◌, inl, inr, refl, ap, ◌∙◌, true, false, Option, none, some, List,
  [], ◌∷◌, length, arith, Bool-cases, if◌then◌else◌,
}
use wispy_vm.Vm.Cons
use wispy_vm.Vm.Cons.{Cons}
use wispy_vm.Vm.Value
use wispy_vm.Vm.Value.{Value}
use wispy_vm.Vm.Memory.{Memory, ok, car, cdr}
use wispy_vm.Vm.Memory.Stack.{null, length_loop, list_length}
use wispy_vm.Native.List.{memq_loop}

-- From `xs` on, the memory holds a list of the values, which ends at `nil`.
pub data IsList (m : Memory) (nil : Cons) : Cons → List Value → Type 0 where
  end : {xs : Cons} → Cons.eq xs nil ≡ true → IsList m nil xs []
  next :
      {xs rest : Cons} {v : Value} {vs : List Value}
      → Cons.eq xs nil ≡ false
      → car xs m ≡ ok v m
      → cdr xs m ≡ ok rest m
      → IsList m nil rest vs
      → IsList m nil xs (v ∷ vs)

-- The first tail of the values that starts with a value equal to `x`.
unfoldable pub first_tail : Value → List Value → Option (List Value)
first_tail x [] = none
first_tail x (v ∷ vs) = if Value.eq x v then some (v ∷ vs) else first_tail x vs

module _ (m : Memory) (nil : Cons) (at-nil : null m ≡ ok nil m) where
  length_loop-IsList :
      (fuel n : ℕ) {xs : Cons} {vs : List Value}
      → IsList m nil xs vs
      → length vs < fuel
      → length_loop fuel xs n m ≡ ok (n + length vs) m
  unfolding length_loop
  length_loop-IsList zero n v h = absurd (omega arith)
  length_loop-IsList (suc fuel) n (end e) h = rw (at-nil, e) (ap (λ k. ok k m) (omega arith))
  length_loop-IsList (suc fuel) n (next e a d v) h =
      rw (at-nil, e, d, length_loop-IsList fuel (n + 1) v (omega arith))
        (ap (λ k. ok k m) (omega arith))

  -- The length of a proper list is the number of its values, and the memory stays as it was, with
  -- fuel for one round more than there are values.
  pub list_length-IsList :
      (fuel : ℕ) (xs : Cons) (vs : List Value)
      → IsList m nil xs vs
      → length vs < fuel
      → list_length fuel xs m ≡ ok (length vs) m
  unfolding list_length
  list_length-IsList fuel xs vs v h = length_loop-IsList fuel 0 v h ∙ ap (λ k. ok k m) (omega arith)

  -- In a proper list `memq` finds the first tail that starts with a value that is equal to the one
  -- looked for, and gives `y` where there is none, with fuel for one round more than there are
  -- values.
  pub memq_loop-IsList :
      (fuel : ℕ) (x : Value) (y xs : Cons) (vs : List Value)
      → IsList m nil xs vs
      → length vs < fuel
      → ((first_tail x vs ≡ none) × (memq_loop fuel x xs y m ≡ ok y m))
        ⊎ ((c : Cons) × (tail : List Value) × (first_tail x vs ≡ some tail)
            × (memq_loop fuel x xs y m ≡ ok c m)
            × IsList m nil c tail)
  unfolding memq_loop first_tail
  memq_loop-IsList zero x y xs vs v h = absurd (omega arith)
  memq_loop-IsList (suc fuel) x y xs [] (end e) h = inl (refl, rw (at-nil, e) refl)
  memq_loop-IsList (suc fuel) x y xs (w ∷ vs) (next e a d v) h = elim (Bool-cases (Value.eq x w)) [
    | inl same ↦ inr (xs, w ∷ vs, rw same refl, rw (at-nil, e, a, same) refl, next e a d v)
    | inr other ↦ elim (memq_loop-IsList fuel x y _ vs v (omega arith)) [
      | inl (none_left, run) ↦ inl (rw other none_left, rw (at-nil, e, a, other, d, run) refl)
      | inr (c, tail, first, run, at) ↦
          inr (c, tail, rw other first, rw (at-nil, e, a, other, d, run) refl, at)
    ]
  ]
