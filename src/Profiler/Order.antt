-- ===== src/Profiler/Order.antt =====
-- The derived orders of Rust that the profiler sorts by: of numbers, of options, and of sequences.
use Prim.Native.Nat.{compare, Ordering}
use wispy_vm.Prelude.{◌≡◌, refl, ap, ◌⊎◌, inl, inr, Option, none, some, List, [], ◌∷◌, arith}
pub use Prim.Native.Nat.{Ordering, lt, eq, gt}

-- `Ordering::then`
abbrev pub and_then : Ordering → Ordering → Ordering
and_then lt o = lt
and_then eq o = o
and_then gt o = gt

module _ {A : Type 0} (cmp : A → A → Ordering) where
  -- `Ord for Option<A>`
  unfoldable pub compare_option : Option A → Option A → Ordering
  compare_option none none = eq
  compare_option none (some b) = lt
  compare_option (some a) none = gt
  compare_option (some a) (some b) = cmp a b

  -- `Ord for Vec<A>`
  unfoldable pub compare_list : List A → List A → Ordering
  compare_list [] [] = eq
  compare_list [] (b ∷ bs) = lt
  compare_list (a ∷ as') [] = gt
  compare_list (a ∷ as') (b ∷ bs) = and_then (cmp a b) (compare_list as' bs)

-- A comparison that is a total order.
pub record IsOrder {A : Type 0} (cmp : A → A → Ordering) : Type 0 where
  pub compare_eq : (a b : A) → cmp a b ≡ eq → a ≡ b
  pub compare_refl : (a : A) → cmp a a ≡ eq
  pub compare_trans : (a b c : A) → cmp a b ≡ lt → cmp b c ≡ lt → cmp a c ≡ lt
  pub compare_gt : (a b : A) → cmp a b ≡ gt → cmp b a ≡ lt

pub compare-IsOrder : IsOrder compare
compare-IsOrder = record {
  compare_eq = λ a b h. ground arith;
  compare_refl = λ a. ground arith;
  compare_trans = λ a b c h k. ground arith;
  compare_gt = λ a b h. ground arith;
}

pub Ordering-cases : (o : Ordering) → (o ≡ lt) ⊎ (o ≡ eq) ⊎ (o ≡ gt)
Ordering-cases lt = inl refl
Ordering-cases eq = inr (inl refl)
Ordering-cases gt = inr (inr refl)

and_then-eq : (o p : Ordering) → and_then o p ≡ eq → (o ≡ eq) × (p ≡ eq)
and_then-eq lt p h = cc
and_then-eq eq p h = (refl, h)
and_then-eq gt p h = cc

and_then-lt : (o p : Ordering) → and_then o p ≡ lt → (o ≡ lt) ⊎ ((o ≡ eq) × (p ≡ lt))
and_then-lt lt p h = inl refl
and_then-lt eq p h = inr (refl, h)
and_then-lt gt p h = cc

and_then-gt : (o p : Ordering) → and_then o p ≡ gt → (o ≡ gt) ⊎ ((o ≡ eq) × (p ≡ gt))
and_then-gt lt p h = cc
and_then-gt eq p h = inr (refl, h)
and_then-gt gt p h = inl refl

module _ {A : Type 0} {cmp : A → A → Ordering} (order : IsOrder cmp) where
  option_eq : (a b : Option A) → compare_option cmp a b ≡ eq → a ≡ b
  unfolding compare_option
  option_eq none none h = refl
  option_eq none (some b) h = cc
  option_eq (some a) none h = cc
  option_eq (some a) (some b) h = ap some (order.compare_eq a b h)

  option_refl : (a : Option A) → compare_option cmp a a ≡ eq
  unfolding compare_option
  option_refl none = refl
  option_refl (some a) = order.compare_refl a

  option_trans :
      (a b c : Option A)
      → compare_option cmp a b ≡ lt
      → compare_option cmp b c ≡ lt
      → compare_option cmp a c ≡ lt
  unfolding compare_option
  option_trans none none c h k = k
  option_trans none (some b) none h k = cc
  option_trans none (some b) (some c) h k = refl
  option_trans (some a) none c h k = cc
  option_trans (some a) (some b) none h k = cc
  option_trans (some a) (some b) (some c) h k = order.compare_trans a b c h k

  option_gt : (a b : Option A) → compare_option cmp a b ≡ gt → compare_option cmp b a ≡ lt
  unfolding compare_option
  option_gt none none h = cc
  option_gt none (some b) h = cc
  option_gt (some a) none h = refl
  option_gt (some a) (some b) h = order.compare_gt a b h

  pub compare_option-IsOrder : IsOrder (compare_option cmp)
  compare_option-IsOrder = record {
    compare_eq = option_eq;
    compare_refl = option_refl;
    compare_trans = option_trans;
    compare_gt = option_gt;
  }

  list_eq : (as' bs : List A) → compare_list cmp as' bs ≡ eq → as' ≡ bs
  unfolding compare_list
  list_eq [] [] h = refl
  list_eq [] (b ∷ bs) h = cc
  list_eq (a ∷ as') [] h = cc
  list_eq (a ∷ as') (b ∷ bs) h =
      let (x, y) = and_then-eq (cmp a b) _ h in cc (order.compare_eq a b x, list_eq as' bs y)

  list_refl : (as' : List A) → compare_list cmp as' as' ≡ eq
  unfolding compare_list
  list_refl [] = refl
  list_refl (a ∷ as') = rw (order.compare_refl a) (list_refl as')

  list_trans :
      (as' bs cs : List A)
      → compare_list cmp as' bs ≡ lt
      → compare_list cmp bs cs ≡ lt
      → compare_list cmp as' cs ≡ lt
  unfolding compare_list
  list_trans [] [] cs h k = k
  list_trans [] (b ∷ bs) [] h k = cc
  list_trans [] (b ∷ bs) (c ∷ cs) h k = refl
  list_trans (a ∷ as') [] cs h k = cc
  list_trans (a ∷ as') (b ∷ bs) [] h k = cc
  list_trans (a ∷ as') (b ∷ bs) (c ∷ cs) h k =
      let tails = list_trans as' bs cs in
      elim (and_then-lt (cmp a b) _ h) [
        | inl x ↦ elim (and_then-lt (cmp b c) _ k) [
          | inl y ↦ rw (order.compare_trans a b c x y) refl
          | inr (y, _) ↦ rw (← order.compare_eq b c y, x) refl
        ]
        | inr (x, p) ↦ elim (and_then-lt (cmp b c) _ k) [
          | inl y ↦ rw (order.compare_eq a b x, y) refl
          | inr (y, q) ↦ rw (order.compare_eq a b x, y) (tails p q)
        ]
      ]

  list_gt : (as' bs : List A) → compare_list cmp as' bs ≡ gt → compare_list cmp bs as' ≡ lt
  unfolding compare_list
  list_gt [] [] h = cc
  list_gt [] (b ∷ bs) h = cc
  list_gt (a ∷ as') [] h = refl
  list_gt (a ∷ as') (b ∷ bs) h =
      let tails = list_gt as' bs in
      elim (and_then-gt (cmp a b) _ h) [
        | inl x ↦ rw (order.compare_gt a b x) refl
        | inr (x, p) ↦ rw (order.compare_eq a b x, order.compare_refl b) (tails p)
      ]

  pub compare_list-IsOrder : IsOrder (compare_list cmp)
  compare_list-IsOrder = record {
    compare_eq = list_eq;
    compare_refl = list_refl;
    compare_trans = list_trans;
    compare_gt = list_gt;
  }
