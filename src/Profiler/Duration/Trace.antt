-- ===== src/Profiler/Duration/Trace.antt =====
-- The durations of a profile of calls that return.
use wispy_vm.Prelude.{
  ℕ, suc, ◌-◌, ◌^◌, ◌≤◌, ◌<◌, ◌≡◌, refl, sym, ap, ◌∙◌, List, [], ◌∷◌, ◌++◌, map, arith,
  append_assoc, append-nil,
}
use wispy_vm.Profiler.Duration.{
  Calls, sub_time, operate, transpose, calculate_from, calculate_durations, base_call,
}
use wispy_vm.Profiler.Record.{
  ProcedureOperation, call, return, return_call, ProcedureRecord, DurationRecord,
}
use wispy_vm.Profiler.Stack.{Stack}
use wispy_vm.Profiler.{Result, ok, err}

-- What a procedure does from its call on: it returns, it calls and goes on when the callee returned,
-- or it calls another in its place. Each event has the stack and the time of its record.
pub data Activity : Type 0 where
  returns : Stack → ℕ → Activity
  calls : Stack → ℕ → Activity → Activity → Activity
  tail_calls : Stack → ℕ → Activity → Activity

abbrev pub event : ProcedureOperation → Stack → ℕ → ProcedureRecord
event o s t = record { operation = o; stack = s; time = t }

-- The records of an activity, in the order of their times.
abbrev pub trace : Activity → List ProcedureRecord
trace (returns s t) = event return s t ∷ []
trace (calls s t callee rest) = event call s t ∷ (trace callee ++ trace rest)
trace (tail_calls s t callee) = event return_call s t ∷ trace callee

-- The time at which an activity ends.
abbrev pub end_time : Activity → ℕ
end_time (returns s t) = t
end_time (calls s t callee rest) = end_time rest
end_time (tail_calls s t callee) = end_time callee

-- The time does not run backwards from `now` on.
abbrev pub IsTimed : ℕ → Activity → Type 0
IsTimed now (returns s t) = (now ≤ t) × (t < 2 ^ 128)
IsTimed now (calls s t callee rest) = (now ≤ t) × IsTimed t callee × IsTimed (end_time callee) rest
IsTimed now (tail_calls s t callee) = (now ≤ t) × IsTimed t callee

abbrev pub duration : Stack → ℕ → DurationRecord
duration s t = record { stack = s; time = t }

-- The durations of an activity that began with the stack `s` at the time `t`, in the order in which
-- the calls end: from the call to the return, or to the call in its place.
abbrev pub durations : Stack → ℕ → Activity → List DurationRecord
durations s t (returns s' t') = duration s (t' - t) ∷ []
durations s t (calls s' t' callee rest) = durations s' t' callee ++ durations s t rest
durations s t (tail_calls s' t' callee) = duration s (t' - t) ∷ durations s' t' callee

pub IsTimed-end :
    (now : ℕ) (a : Activity) → IsTimed now a → (now ≤ end_time a) × (end_time a < 2 ^ 128)
IsTimed-end now (returns s t) h = h
IsTimed-end now (calls s t callee rest) h =
    let c = IsTimed-end t callee h.1 in
    let r = IsTimed-end (end_time callee) rest h.2 in (omega arith, r.1)
IsTimed-end now (tail_calls s t callee) h = let c = IsTimed-end t callee h.1 in (omega arith, c.1)

pub IsTimed-weaken : (m n : ℕ) (a : Activity) → m ≤ n → IsTimed n a → IsTimed m a
IsTimed-weaken m n (returns s t) l h = (omega arith, h.1)
IsTimed-weaken m n (calls s t callee rest) l h = (omega arith, h.1, h.2)
IsTimed-weaken m n (tail_calls s t callee) l h = (omega arith, h.1)

sub_time-le : (a b : ℕ) → b ≤ a → a < 2 ^ 128 → sub_time a b ≡ a - b
unfolding sub_time
sub_time-le a b h k = omega arith

map-append_ok :
    {A : Type 0} (xs ys : List A) → map {B = Result A} ok (xs ++ ys) ≡ map ok xs ++ map ok ys
map-append_ok [] ys = refl
map-append_ok (x ∷ xs) ys = ap (λ r. ok x ∷ r) (map-append_ok xs ys)

-- Only the first index matters.
calculate_from-index :
    (i j : ℕ) (cs : Calls) (items : List (Result ProcedureRecord))
    → calculate_from (suc i) cs items ≡ calculate_from (suc j) cs items
unfolding calculate_from
calculate_from-index i j cs [] = refl
calculate_from-index i j cs (err e ∷ items) =
    ap (λ r. err e ∷ r) (calculate_from-index (suc i) (suc j) cs items)
calculate_from-index i j cs (ok r ∷ items) =
    let (cs', result) = operate r cs in
    ap (λ rest. transpose result ++ rest) (calculate_from-index (suc i) (suc j) cs' items)

-- An activity on top of the calls is taken off, with its durations.
calculate_from-trace :
    (i : ℕ) (p : ProcedureRecord) (cs : Calls) (a : Activity) (rest : List (Result ProcedureRecord))
    → IsTimed p.time a
    → calculate_from (suc i) (p ∷ cs) (map ok (trace a) ++ rest)
      ≡ map ok (durations p.stack p.time a) ++ calculate_from (suc i) cs rest
unfolding calculate_from
calculate_from-trace i p cs (returns s t) rest h =
    rw (sub_time-le t p.time h.0 h.1)
      (ap (λ r. ok (duration p.stack (t - p.time)) ∷ r) (calculate_from-index (suc i) i cs rest))
calculate_from-trace i p cs (calls s t callee k) rest h =
    let timed = IsTimed-end t callee h.1 in
    let inner =
      calculate_from-trace (suc i) (event call s t) (p ∷ cs) callee (map ok (trace k) ++ rest)
        h.1 in
    let outer =
      calculate_from-trace (suc i) p cs k rest
        (IsTimed-weaken p.time (end_time callee) k (omega arith) h.2) in
    rw
      (
        map-append_ok (trace callee) (trace k),
        append_assoc (map ok (trace callee)) (map ok (trace k)) rest,
      )
      (inner
        ∙ ap (λ r. map ok (durations s t callee) ++ r)
            (outer
              ∙ ap (λ r. map ok (durations p.stack p.time k) ++ r)
                  (calculate_from-index (suc i) i cs rest))
        ∙ rw (map-append_ok (durations s t callee) (durations p.stack p.time k)) (
            sym (
              append_assoc (map ok (durations s t callee)) (map ok (durations p.stack p.time k))
                _)))
calculate_from-trace i p cs (tail_calls s t callee) rest h =
    let inner = calculate_from-trace (suc i) (event return_call s t) cs callee rest h.1 in
    let timed = IsTimed-end t callee h.1 in
    let small : t < 2 ^ 128 = omega arith in
    rw (sub_time-le t p.time h.0 small) (
      ap (λ r. ok (duration p.stack (t - p.time)) ∷ r)
        (inner
          ∙ ap (λ r. map ok (durations s t callee) ++ r) (calculate_from-index (suc i) i cs rest)))

no_items :
    (ds : List (Result DurationRecord)) (t : ℕ) → ds ++ calculate_from 1 (base_call t ∷ []) [] ≡ ds
unfolding calculate_from
no_items ds t = append-nil ds

-- In a profile that starts with the call of a procedure, whose time does not run backwards, and that
-- ends when this call returned, every call gives its stack and its own time, in the order in which
-- the calls end.
pub calculate_durations-trace :
    (s : Stack) (t : ℕ) (a : Activity)
    → IsTimed t a
    → calculate_durations (map ok (event call s t ∷ trace a)) ≡ map ok (durations s t a)
unfolding calculate_durations
calculate_durations-trace s t a h =
    ap (calculate_from 1 (event call s t ∷ base_call t ∷ [])) (sym (append-nil (map ok (trace a))))
    ∙ calculate_from-trace 0 (event call s t) (base_call t ∷ []) a [] h
    ∙ no_items (map ok (durations s t a)) t
