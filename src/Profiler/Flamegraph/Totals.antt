-- ===== src/Profiler/Flamegraph/Totals.antt =====
-- The map of a flamegraph holds each stack once, with the sum of its times.
use wispy_vm.Prelude.{
  ℕ, ◌+◌, ◌%◌, ◌^◌, ◌<◌, ◌≡◌, ◌≢◌, refl, ◌∙◌, inl, inr, none, some, Option, List, [], ◌∷◌, map,
  arith, Bool-cases, Option-cases, if◌then◌else◌,
}
use wispy_vm.Profiler.Flamegraph.Entries.{
  IsSorted, insert_time-IsSorted, get_time-nil, get_time-insert_time_self, get_time-insert_time_ne,
}
use wispy_vm.Profiler.Flamegraph.{
  TimeMap, get_time, insert_time, add_record, collect_times, write_times, calculate_flamegraph,
}
use wispy_vm.Profiler.Record.{DurationRecord}
use wispy_vm.Profiler.Stack.Equality.{same_frames→eq, same_frames→ne}
use wispy_vm.Profiler.Stack.{Stack, same_frames}
use wispy_vm.Profiler.{ok}

abbrev add_times : Option ℕ → Option ℕ → Option ℕ
add_times none o = o
add_times (some n) none = some n
add_times (some n) (some k) = some (n + k)

abbrev time_or_zero : Option ℕ → ℕ
time_or_zero none = 0
time_or_zero (some n) = n

-- The sum of the times of the records of a stack, if there is one.
abbrev pub total_time : Stack → List DurationRecord → Option ℕ
total_time s [] = none
total_time s (r ∷ rs) =
    if same_frames s.frames r.stack.frames
    then add_times (some r.time) (total_time s rs)
    else total_time s rs

-- The sum of all times.
abbrev pub all_time : List DurationRecord → ℕ
all_time [] = 0
all_time (r ∷ rs) = r.time + all_time rs

add_record-some :
    (r : DurationRecord) (n : ℕ) (m : TimeMap)
    → get_time r.stack m ≡ some n
    → add_record r m ≡ insert_time r.stack ((n + r.time) % 2 ^ 128) m
unfolding add_record
add_record-some r n m e = rw (e, add_record) refl

add_record-none :
    (r : DurationRecord) (m : TimeMap)
    → get_time r.stack m ≡ none
    → add_record r m ≡ insert_time r.stack r.time m
unfolding add_record
add_record-none r m e = rw (e, add_record) refl

add_record-IsSorted : (r : DurationRecord) (m : TimeMap) → IsSorted m → IsSorted (add_record r m)
add_record-IsSorted r m h = elim (Option-cases (get_time r.stack m)) [
  | inl e ↦ rw (add_record-none r m e) (insert_time-IsSorted r.stack r.time m h)
  | inr (n, e) ↦ rw (add_record-some r n m e) (insert_time-IsSorted r.stack _ m h)
]

get_time-add_record_self :
    (r : DurationRecord) (m : TimeMap)
    → time_or_zero (get_time r.stack m) + r.time < 2 ^ 128
    → get_time r.stack (add_record r m) ≡ add_times (get_time r.stack m) (some r.time)
get_time-add_record_self r m h = elim (Option-cases (get_time r.stack m)) [
  | inl e ↦ rw (add_record-none r m e, e) (get_time-insert_time_self r.stack r.time m)
  | inr (n, e) ↦
      let small : n + r.time < 2 ^ 128 = rw e at h in
      let same : (n + r.time) % 2 ^ 128 ≡ n + r.time = omega arith in
      rw (add_record-some r n m e, e, same) (get_time-insert_time_self r.stack (n + r.time) m)
]

get_time-add_record_ne :
    (s : Stack) (r : DurationRecord) (m : TimeMap)
    → s ≢ r.stack
    → get_time s (add_record r m) ≡ get_time s m
get_time-add_record_ne s r m n = elim (Option-cases (get_time r.stack m)) [
  | inl e ↦ rw (add_record-none r m e) (get_time-insert_time_ne s r.stack r.time m n)
  | inr (k, e) ↦ rw (add_record-some r k m e) (get_time-insert_time_ne s r.stack _ m n)
]

add_times_assoc : (a b c : Option ℕ) → add_times (add_times a b) c ≡ add_times a (add_times b c)
add_times_assoc none b c = refl
add_times_assoc (some n) none c = refl
add_times_assoc (some n) (some k) none = refl
add_times_assoc (some n) (some k) (some l) = ground arith

time_or_zero-add_times :
    (a b : Option ℕ) → time_or_zero (add_times a b) ≡ time_or_zero a + time_or_zero b
time_or_zero-add_times none b = omega arith
time_or_zero-add_times (some n) none = omega arith
time_or_zero-add_times (some n) (some k) = refl

add_times-none : (o : Option ℕ) → o ≡ add_times o none
add_times-none none = refl
add_times-none (some n) = refl

no_time : (s : Stack) (n : ℕ) → n < 2 ^ 128 → time_or_zero (get_time s []) + n < 2 ^ 128
no_time s n h = rw (get_time-nil s) (omega arith)

start : (s : Stack) (o : Option ℕ) → add_times (get_time s []) o ≡ o
start s o = rw (get_time-nil s) refl

-- There is room in the map for more time.
abbrev HasRoom : TimeMap → ℕ → Type 0
HasRoom m more = (s : Stack) → time_or_zero (get_time s m) + more < 2 ^ 128

add_record-HasRoom :
    (r : DurationRecord) (m : TimeMap) (more : ℕ)
    → HasRoom m (r.time + more)
    → HasRoom (add_record r m) more
add_record-HasRoom r m more room s =
    let known = room s in
    let own = room r.stack in
    elim (Bool-cases (same_frames s.frames r.stack.frames)) [
      | inl e ↦
          let sum = time_or_zero-add_times (get_time r.stack m) (some r.time) in
          rw (same_frames→eq s r.stack e, get_time-add_record_self r m (omega arith), sum)
            (omega arith)
      | inr e ↦ rw (get_time-add_record_ne s r m (same_frames→ne s r.stack e)) (omega arith)
    ]

get_time-step :
    (s : Stack) (r : DurationRecord) (rs : List DurationRecord) (m : TimeMap)
    → time_or_zero (get_time r.stack m) + r.time < 2 ^ 128
    → add_times (get_time s (add_record r m)) (total_time s rs)
      ≡ add_times (get_time s m) (total_time s (r ∷ rs))
get_time-step s r rs m h = elim (Bool-cases (same_frames s.frames r.stack.frames)) [
  | inl e ↦
      let same = same_frames→eq s r.stack e in
      let looked : get_time s (add_record r m) ≡ add_times (get_time s m) (some r.time) =
        rw same (get_time-add_record_self r m h) in
      rw (looked, e) (add_times_assoc (get_time s m) (some r.time) (total_time s rs))
  | inr e ↦ rw (get_time-add_record_ne s r m (same_frames→ne s r.stack e), e) refl
]

collect_times-totals :
    (m : TimeMap) (rs : List DurationRecord)
    → IsSorted m
    → HasRoom m (all_time rs)
    → (m' : TimeMap) × (collect_times m (map ok rs) ≡ ok m')
      × IsSorted m'
      × ((s : Stack) → get_time s m' ≡ add_times (get_time s m) (total_time s rs))
unfolding collect_times
collect_times-totals m [] h room = (m, refl, h, λ s. add_times-none (get_time s m))
collect_times-totals m (r ∷ rs) h room =
    let (m', run, sorted, totals) =
      collect_times-totals (add_record r m) rs (add_record-IsSorted r m h)
        (add_record-HasRoom r m (all_time rs) room) in
    let own = room r.stack in
    (m', run, sorted, λ s. totals s ∙ get_time-step s r rs m (omega arith))

-- Where the times of all records add up to less than 2 ^ 128, a flamegraph is the text of a map whose
-- keys are the stacks of the records, each once and in their order, with the sum of their times.
pub calculate_flamegraph-totals :
    (rs : List DurationRecord)
    → all_time rs < 2 ^ 128
    → (m : TimeMap) × (calculate_flamegraph (map ok rs) ≡ (write_times m, ok tt))
      × IsSorted m
      × ((s : Stack) → get_time s m ≡ total_time s rs)
unfolding calculate_flamegraph
calculate_flamegraph-totals rs h =
    let (m, run, sorted, totals) = collect_times-totals [] rs tt (λ s. no_time s (all_time rs) h) in
    (m, rw (run, calculate_flamegraph) refl, sorted, λ s. totals s ∙ start s (total_time s rs))
