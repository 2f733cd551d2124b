-- ===== src/Profiler/Duration.antt =====
-- profiler/src/duration.rs: the durations of the calls in a profile.
pub mod Trace
use wispy_vm.Prelude.{ℕ, zero, suc, ◌+◌, ◌-◌, ◌%◌, ◌^◌, Option, none, some, List, [], ◌∷◌, ◌++◌}
use wispy_vm.Profiler.Record.{
  ProcedureOperation, call, return, return_call, ProcedureRecord, DurationRecord,
}
use wispy_vm.Profiler.{Error, Result, ok, err, missing_call_record, ◌>>=◌}

-- The difference of two `u128`, which wraps around where overflow is not checked.
unfoldable pub sub_time : ℕ → ℕ → ℕ
sub_time a b = (a + 2 ^ 128 - b) % 2 ^ 128

-- The state of the iteration: the calls that have not returned.
abbrev pub Calls : Type 0
Calls = List ProcedureRecord

unfoldable pub calculate_duration : ProcedureRecord → Calls → Calls × Result DurationRecord
calculate_duration record' [] = ([], err missing_call_record)
calculate_duration record' (previous ∷ calls) =
    (calls, ok (record { stack = previous.stack; time = sub_time record'.time previous.time }))

-- The call that the first record of a profile is put on.
unfoldable pub base_call : ℕ → ProcedureRecord
base_call time = record { operation = call; stack = record { frames = none ∷ [] }; time = time }

-- The match on the operation of a record: the new state, and the item unless there is none.
unfoldable pub operate : ProcedureRecord → Calls → Calls × Result (Option DurationRecord)
unfolding calculate_duration
operate record' calls = elim record'.operation [
  | call ↦ (record' ∷ calls, ok none)
  | return ↦
      let (rest, duration) = calculate_duration record' calls in
      (rest, duration >>= λ d. ok (some d))
  | return_call ↦
      let (rest, duration) = calculate_duration record' calls in
      elim duration [ ok d ↦ (record' ∷ rest, ok (some d)) | err e ↦ (rest, err e) ]
]

-- The closure of the iteration, at the index of a record.
unfoldable pub calculate_item :
    ℕ → Result ProcedureRecord → Calls → Calls × Result (Option DurationRecord)
unfolding operate base_call
calculate_item index (err e) calls = (calls, err e)
calculate_item zero (ok record') calls = operate record' (base_call record'.time ∷ calls)
calculate_item (suc index) (ok record') calls = operate record' calls

-- `Result::transpose` under `flat_map`.
unfoldable pub transpose : Result (Option DurationRecord) → List (Result DurationRecord)
transpose (ok none) = []
transpose (ok (some d)) = ok d ∷ []
transpose (err e) = err e ∷ []

unfoldable pub calculate_from :
    ℕ → Calls → List (Result ProcedureRecord) → List (Result DurationRecord)
unfolding calculate_item transpose
calculate_from index calls [] = []
calculate_from index calls (item ∷ items) =
    let (calls', result) = calculate_item index item calls in
    transpose result ++ calculate_from (suc index) calls' items

unfoldable pub calculate_durations : List (Result ProcedureRecord) → List (Result DurationRecord)
unfolding calculate_from
calculate_durations items = calculate_from 0 [] items
