-- ===== src/Profiler/Flamegraph/Entries.antt =====
-- Lookup and insertion in the map of a flamegraph.
use Prim.Native.Nat.{compare}
use wispy_vm.Prelude.{ℕ, ◌≡◌, refl, sym, ◌≢◌, ap, ◌∙◌, inl, inr, none, some, [], ◌∷◌}
use wispy_vm.Profiler.Flamegraph.{compare_stack, TimeMap, get_time, insert_time}
use wispy_vm.Profiler.Order.{
  lt, eq, gt, IsOrder, Ordering-cases, compare-IsOrder, compare_option-IsOrder,
  compare_list-IsOrder, compare_list, compare_option,
}
use wispy_vm.Profiler.Stack.{Stack}

frames-IsOrder : IsOrder (compare_list (compare_option (compare_list compare)))
frames-IsOrder =
    compare_list-IsOrder (compare_option-IsOrder (compare_list-IsOrder compare-IsOrder))

pub stack-IsOrder : IsOrder compare_stack
unfolding compare_stack
stack-IsOrder = record {
  compare_eq =
      λ a b h. ap (λ fs. record { frames = fs }) (frames-IsOrder.compare_eq a.frames b.frames h);
  compare_refl = λ a. frames-IsOrder.compare_refl a.frames;
  compare_trans = λ a b c. frames-IsOrder.compare_trans a.frames b.frames c.frames;
  compare_gt = λ a b. frames-IsOrder.compare_gt a.frames b.frames;
}

-- What the operations do at the first entry.
module _ (s k : Stack) (time old : ℕ) (m : TimeMap) where
  get_time-lt : compare_stack s k ≡ lt → get_time s ((k, old) ∷ m) ≡ none
  unfolding get_time
  get_time-lt c = rw (c, get_time) refl

  get_time-eq : compare_stack s k ≡ eq → get_time s ((k, old) ∷ m) ≡ some old
  unfolding get_time
  get_time-eq c = rw (c, get_time) refl

  get_time-gt : compare_stack s k ≡ gt → get_time s ((k, old) ∷ m) ≡ get_time s m
  unfolding get_time
  get_time-gt c = rw (c, get_time) refl

  insert_time-lt :
      compare_stack s k ≡ lt → insert_time s time ((k, old) ∷ m) ≡ (s, time) ∷ (k, old) ∷ m
  unfolding insert_time
  insert_time-lt c = rw (c, insert_time) refl

  insert_time-eq : compare_stack s k ≡ eq → insert_time s time ((k, old) ∷ m) ≡ (k, time) ∷ m
  unfolding insert_time
  insert_time-eq c = rw (c, insert_time) refl

  insert_time-gt :
      compare_stack s k ≡ gt → insert_time s time ((k, old) ∷ m) ≡ (k, old) ∷ insert_time s time m
  unfolding insert_time
  insert_time-gt c = rw (c, insert_time) refl

-- Every key of the map is behind the stack.
abbrev IsBehind : Stack → TimeMap → Type 0
IsBehind s [] = Unit {0}
IsBehind s ((t, time) ∷ m) = compare_stack s t ≡ lt

-- The keys stand in increasing order, so each occurs once.
abbrev pub IsSorted : TimeMap → Type 0
IsSorted [] = Unit {0}
IsSorted ((s, time) ∷ m) = IsBehind s m × IsSorted m

insert_time-IsBehind :
    (t s : Stack) (time : ℕ) (m : TimeMap)
    → compare_stack t s ≡ lt
    → IsBehind t m
    → IsBehind t (insert_time s time m)
insert_time-IsBehind t s time [] l h = unfold insert_time in l
insert_time-IsBehind t s time ((k, old) ∷ m) l h = elim (Ordering-cases (compare_stack s k)) [
  | inl c ↦ rw (insert_time-lt s k time old m c) l
  | inr (inl c) ↦ rw (insert_time-eq s k time old m c) h
  | inr (inr c) ↦ rw (insert_time-gt s k time old m c) h
]

pub insert_time-IsSorted :
    (s : Stack) (time : ℕ) (m : TimeMap) → IsSorted m → IsSorted (insert_time s time m)
insert_time-IsSorted s time [] h = unfold insert_time in (tt, tt)
insert_time-IsSorted s time ((k, old) ∷ m) h =
    let rest = insert_time-IsSorted s time m h.1 in
    elim (Ordering-cases (compare_stack s k)) [
      | inl c ↦ rw (insert_time-lt s k time old m c) (c, h)
      | inr (inl c) ↦ rw (insert_time-eq s k time old m c) h
      | inr (inr c) ↦
          rw (insert_time-gt s k time old m c)
            (insert_time-IsBehind k s time m (stack-IsOrder.compare_gt s k c) h.0, rest)
    ]

pub get_time-nil : (s : Stack) → get_time s [] ≡ none
unfolding get_time
get_time-nil s = refl

insert_time-nil : (s : Stack) (time : ℕ) → insert_time s time [] ≡ (s, time) ∷ []
unfolding insert_time
insert_time-nil s time = refl

pub get_time-insert_time_self :
    (s : Stack) (time : ℕ) (m : TimeMap) → get_time s (insert_time s time m) ≡ some time
get_time-insert_time_self s time [] =
    rw (insert_time-nil s time) (get_time-eq s s time time [] (stack-IsOrder.compare_refl s))
get_time-insert_time_self s time ((k, old) ∷ m) = elim (Ordering-cases (compare_stack s k)) [
  | inl c ↦
      rw (insert_time-lt s k time old m c)
        (get_time-eq s s time time ((k, old) ∷ m) (stack-IsOrder.compare_refl s))
  | inr (inl c) ↦ rw (insert_time-eq s k time old m c) (get_time-eq s k time time m c)
  | inr (inr c) ↦
      rw (insert_time-gt s k time old m c, get_time-gt s k time old (insert_time s time m) c)
        (get_time-insert_time_self s time m)
]

pub get_time-insert_time_ne :
    (s t : Stack) (time : ℕ) (m : TimeMap)
    → s ≢ t
    → get_time s (insert_time t time m) ≡ get_time s m
get_time-insert_time_ne s t time [] n =
    rw (insert_time-nil t time) (elim (Ordering-cases (compare_stack s t)) [
      | inl c ↦ get_time-lt s t time time [] c ∙ sym (get_time-nil s)
      | inr (inl c) ↦ absurd (n (stack-IsOrder.compare_eq s t c))
      | inr (inr c) ↦ get_time-gt s t time time [] c
    ])
get_time-insert_time_ne s t time ((k, old) ∷ m) n =
    let rest = get_time-insert_time_ne s t time m n in
    elim (Ordering-cases (compare_stack t k)) [
      | inl c ↦ rw (insert_time-lt t k time old m c) (elim (Ordering-cases (compare_stack s t)) [
        | inl d ↦
            get_time-lt s t time time ((k, old) ∷ m) d
            ∙ sym (get_time-lt s k time old m (stack-IsOrder.compare_trans s t k d c))
        | inr (inl d) ↦ absurd (n (stack-IsOrder.compare_eq s t d))
        | inr (inr d) ↦ get_time-gt s t time time ((k, old) ∷ m) d
      ])
      | inr (inl c) ↦
          rw (insert_time-eq t k time old m c) (elim (Ordering-cases (compare_stack s k)) [
            | inl d ↦ get_time-lt s k time time m d ∙ sym (get_time-lt s k time old m d)
            | inr (inl d) ↦
                absurd (n (stack-IsOrder.compare_eq s k d ∙ sym (stack-IsOrder.compare_eq t k c)))
            | inr (inr d) ↦ get_time-gt s k time time m d ∙ sym (get_time-gt s k time old m d)
          ])
      | inr (inr c) ↦
          rw (insert_time-gt t k time old m c) (elim (Ordering-cases (compare_stack s k)) [
            | inl d ↦ get_time-lt s k time old _ d ∙ sym (get_time-lt s k time old m d)
            | inr (inl d) ↦ get_time-eq s k time old _ d ∙ sym (get_time-eq s k time old m d)
            | inr (inr d) ↦ get_time-gt s k time old _ d ∙ rest ∙ sym (get_time-gt s k time old m d)
          ])
    ]
