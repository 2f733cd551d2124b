-- ===== src/File/Descriptors/Requests.antt =====
-- The calls of a file system as steps of its table of files.
use wispy_vm.File.{FileSystem}
use wispy_vm.File.Descriptors.Runs.{
  Table, Step, Closes, Steps, here, then_step, IsFresh, Steps-IsFresh, Steps-file,
}
use wispy_vm.Prelude.{
  ℕ, suc, ◌+◌, ◌^◌, ◌<◌, ◌≤◌, ◌≡◌, ◌≢◌, Bool, some, List, [], ◌∷◌, length, arith,
}

-- A call of the file system that can change its state.
pub data Request (P : Type 0) : Type 0 where
  open_request : P → Bool → Request P
  close_request read_request flush_request : ℕ → Request P
  write_request : ℕ → ℕ → Request P
  delete_request : P → Request P

module _ {P : Type 0} where
  -- A descriptor that the request closes is one of `Q`.
  abbrev pub RequestCloses : (ℕ → Type 0) → Request P → Type 0
  RequestCloses Q (close_request d) = Q d
  RequestCloses Q _ = Unit {0}

  abbrev pub AllClose : (ℕ → Type 0) → List (Request P) → Type 0
  AllClose Q [] = Unit {0}
  AllClose Q (r ∷ rs) = RequestCloses Q r × AllClose Q rs

  any : (rs : List (Request P)) → AllClose (λ k. Unit {0}) rs
  any [] = tt
  any (close_request d ∷ rs) = (tt, any rs)
  any (open_request p output ∷ rs) = (tt, any rs)
  any (read_request d ∷ rs) = (tt, any rs)
  any (flush_request d ∷ rs) = (tt, any rs)
  any (write_request d byte ∷ rs) = (tt, any rs)
  any (delete_request p ∷ rs) = (tt, any rs)

module _ {S P E : Type 0} (file_system : FileSystem S P E) where
  -- The state after a request.
  unfoldable pub serve : Request P → S → S
  serve (open_request p output) s = (file_system.open_file p output s).0
  serve (close_request d) s = (file_system.close d s).0
  serve (read_request d) s = (file_system.read d s).0
  serve (flush_request d) s = (file_system.flush d s).0
  serve (write_request d byte) s = (file_system.write d byte s).0
  serve (delete_request p) s = (file_system.delete p s).0

  unfoldable pub run : List (Request P) → S → S
  run [] s = s
  run (r ∷ rs) s = run rs (serve r s)

  module _ {F : Type 0} (table : S → Table F)
      (step : (Q : ℕ → Type 0) (r : Request P) (s : S)
        → RequestCloses Q r
        → (st : Step (table s) (table (serve r s))) × Closes Q st) where
    pub run-Steps :
        (Q : ℕ → Type 0) (rs : List (Request P)) (s : S)
        → AllClose Q rs
        → Steps Q (length rs) (table s) (table (run rs s))
    unfolding run
    run-Steps Q [] s q = here
    run-Steps Q (r ∷ rs) s q =
        let (st, c) = step Q r s q.0 in then_step st c (run-Steps Q rs (serve r s) q.1)

    -- The descriptors from the next one on are free after any requests.
    pub run-IsFresh :
        (rs : List (Request P)) (s : S)
        → (table s).next + length rs < 2 ^ 64
        → IsFresh (table s)
        → ((table (run rs s)).next ≤ (table s).next + length rs) × IsFresh (table (run rs s))
    run-IsFresh rs s small fresh =
        Steps-IsFresh (run-Steps (λ k. Unit {0}) rs s (any rs)) small fresh

    -- A file that a step has opened stays at its descriptor.
    pub run-file :
        (s s' : S) (st : Step (table s) (table s')) (f : F) (d : ℕ) (rs : List (Request P))
        → Closes (λ k. Unit {0}) st
        → (table s).next + suc (length rs) < 2 ^ 64
        → IsFresh (table s)
        → AllClose (λ k. k ≢ d) rs
        → (table s').file d ≡ some f
        → (table (run rs s')).file d ≡ some f
    run-file s s' st f d rs c small fresh spared at =
        let (le, fresh') = Steps-IsFresh (then_step st c here) (omega arith) fresh in
        Steps-file d f (run-Steps (λ k. k ≢ d) rs s' spared) (omega (arith, le)) fresh' at
