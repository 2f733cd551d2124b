-- ===== src/File/Libc/Safety.antt =====
-- Open files of file/src/file_system/libc.rs: the operations as steps of a table of files, and what a
-- descriptor reaches after any of them.
use wispy_vm.File.{FileError, Result, ok, err}
use wispy_vm.File.Descriptors.{IndexMap, first_byte, next_descriptor}
use wispy_vm.File.Descriptors.Requests.{
  Request, open_request, close_request, read_request, flush_request, write_request, delete_request,
  RequestCloses, AllClose, serve, run, run-IsFresh, run-file,
}
use wispy_vm.File.Descriptors.Runs.{Table, Step, opens, closes, keeps, Closes, IsFresh}
use wispy_vm.File.Libc.{
  Calls, new, file, flags, or_return, with_file, State, add_file, release_old, open_file, close,
  read, write, flush, delete, libc_file_system,
}
use wispy_vm.Prelude.{
  ℕ, ◌+◌, ◌^◌, ◌<◌, ◌≡◌, ◌≢◌, refl, ◌∙◌, Bool, Option, none, some, List, [], ◌∷◌, length, arith,
  ◌⊎◌, inl, inr, Option-cases,
}

module _ {W F P : Type 0} (calls : Calls W F P) (map : IndexMap F) where
  abbrev S : Type 0
  S = State calls map

  abbrev table : S → Table F
  table s = record { next = s.descriptor; file = map.find s.files }

  abbrev TableStep : (ℕ → Type 0) → S → S → Type 0
  TableStep Q s s' = (st : Step (table s) (table s')) × Closes Q st

  kept : (Q : ℕ → Type 0) (s : S) (w : W) → TableStep Q s (record s { world = w })
  kept Q s w = (keeps refl (λ j. refl), tt)

  add_file-full :
      (f : F) (s : S)
      → map.put s.files s.descriptor f ≡ none
      → add_file calls map f s
        ≡ (record s { world = calls.release f s.world }, err FileError.invalid_file_descriptor)
  unfolding add_file
  add_file-full f s e = rw (e, add_file)

  add_file-room :
      (f : F) (s : S) (files : map.Map)
      → map.put s.files s.descriptor f ≡ some files
      → add_file calls map f s ≡ (
        record {
          descriptor = next_descriptor s.descriptor;
          files = files;
          world = release_old calls map (map.find s.files s.descriptor) s.world;
        },
        ok s.descriptor,
      )
  unfolding add_file
  add_file-room f s files e = rw (e, add_file)

  add_file-Step : (Q : ℕ → Type 0) (f : F) (s : S) → TableStep Q s (add_file calls map f s).0
  add_file-Step Q f s = elim (Option-cases (map.put s.files s.descriptor f)) [
    | inl full ↦ rw (add_file-full f s full) (kept Q s (calls.release f s.world))
    | inr (files, room) ↦
        rw (add_file-room f s files room)
          (opens f refl (λ j. map.find-put s.files files s.descriptor f j room), tt)
  ]

  -- A call that leaves the table of files alone.
  call-Step :
      {A B : Type 0} (Q : ℕ → Type 0) (e : FileError) (s : S) (r : W × Option A)
      (g : A → S → S × Result FileError B)
      → ((a : A) (s' : S) → TableStep Q s' (g a s').0)
      → TableStep Q s (or_return calls map e s r g).0
  call-Step Q e s (w, some a) g step = step a (record s { world = w })
  call-Step Q e s (w, none) g step = kept Q s w

  unchanged : (Q : ℕ → Type 0) (s : S) → TableStep Q s s
  unchanged Q s = (keeps refl (λ j. refl), tt)

  file-Step :
      {B : Type 0} (Q : ℕ → Type 0) (s : S) (r : Result FileError F)
      (g : F → S × Result FileError B)
      → ((f : F) → TableStep Q s (g f).0)
      → TableStep Q s (with_file calls map s r g).0
  file-Step Q s (ok f) g step = step f
  file-Step Q s (err e) g step = unchanged Q s

  serve-Step :
      (Q : ℕ → Type 0) (r : Request P) (s : S)
      → RequestCloses Q r
      → TableStep Q s (serve (libc_file_system calls map) r s)
  unfolding serve libc_file_system open_file close read write flush delete
  serve-Step Q (open_request p output) s q =
      call-Step Q FileError.open_failure s (calls.open_with p (flags output) s.world)
        (add_file calls map) (add_file-Step Q)
  serve-Step Q (close_request d) s q = (closes d refl (map.find-delete s.files d), q)
  serve-Step Q (read_request d) s q = file-Step Q s (file calls map s d) _ (λ f.
      call-Step Q FileError.read s (calls.read f 1 s.world)
        (λ bytes s'. (s', ok (first_byte bytes))) (λ bytes s'. unchanged Q s'))
  serve-Step Q (flush_request d) s q = file-Step Q s (file calls map s d) _ (λ f.
      call-Step Q FileError.flush s (calls.fsync f s.world) (λ done s'. (s', ok tt))
        (λ done s'. unchanged Q s'))
  serve-Step Q (write_request d byte) s q = file-Step Q s (file calls map s d) _ (λ f.
      call-Step Q FileError.write s (calls.write f (byte ∷ []) s.world) (λ count s'. (s', ok tt))
        (λ count s'. unchanged Q s'))
  serve-Step Q (delete_request p) s q =
      call-Step Q FileError.delete s (calls.unlink p s.world) (λ done s'. (s', ok tt))
        (λ done s'. unchanged Q s')

  file-some : (s : S) (d : ℕ) (f : F) → map.find s.files d ≡ some f → file calls map s d ≡ ok f
  unfolding file
  file-some s d f e = rw (e, file)

  file-none :
      (s : S) (d : ℕ)
      → map.find s.files d ≡ none
      → file calls map s d ≡ err FileError.invalid_file_descriptor
  unfolding file
  file-none s d e = rw (e, file)

  new-IsFresh : (w : W) → IsFresh (table (new calls map w))
  unfolding new
  new-IsFresh w j le = map.find-empty j

  new_descriptor : (w : W) → (new calls map w).descriptor ≡ 0
  unfolding new
  new_descriptor w = refl

  -- The files are those of before.
  abbrev pub SameFiles : S → S → Type 0
  SameFiles s s' = (j : ℕ) → file calls map s' j ≡ file calls map s j

  -- The file is reached by the descriptor after any requests that do not close it, of which there are
  -- fewer than a number.
  abbrev pub Stays : S → ℕ → F → ℕ → Type 0
  Stays s d f calls_left =
      (later : List (Request P))
      → length later < calls_left
      → AllClose (λ k. k ≢ d) later
      → file calls map (run (libc_file_system calls map) later s) d ≡ ok f

  abbrev pub Opening : S → W × Option F → S × Result FileError ℕ → ℕ → Type 0
  Opening s opened (s', result) calls_left =
      ((e : FileError) × (result ≡ err e) × SameFiles s s')
      ⊎ ((f : F) × (opened.1 ≡ some f)
          × (result ≡ ok s.descriptor)
          × (file calls map s s.descriptor ≡ err FileError.invalid_file_descriptor)
          × Stays s' s.descriptor f calls_left)

  same-world : (s : S) (w : W) → SameFiles s (record s { world = w })
  unfolding file
  same-world s w j = refl

  opening :
      (s : S) (opened : W × Option F) (calls_left : ℕ)
      → IsFresh (table s)
      → s.descriptor + calls_left < 2 ^ 64
      → Opening s opened
          (or_return calls map FileError.open_failure s opened (add_file calls map))
          calls_left
  opening s (w, none) n fresh small = inl (FileError.open_failure, refl, same-world s w)
  opening s (w, some f) n fresh small =
      let s' : S = record s { world = w } in
      elim (Option-cases (map.put s.files s.descriptor f)) [
        | inl full ↦
            rw (add_file-full f s' full)
              (inl (FileError.invalid_file_descriptor, refl, same-world s (calls.release f w)))
        | inr (files, room) ↦
            let at : map.find files s.descriptor ≡ some f =
              map.find-put s.files files s.descriptor f s.descriptor room ∙ ground arith in
            rw (add_file-room f s' files room) (
              inr (
                f,
                refl,
                refl,
                file-none s s.descriptor (fresh s.descriptor (omega arith)),
                λ later below spared. file-some _ s.descriptor f (
                    run-file (libc_file_system calls map) table serve-Step s _
                      (opens f refl (λ j. map.find-put s.files files s.descriptor f j room)) f
                      s.descriptor later tt (omega arith) fresh spared at),
              ))
      ]

  -- In a file system reached from a new one by requests, a call of `open` either fails, and leaves each
  -- descriptor the file that it had, or gives a descriptor that had no file. Then the file that the
  -- system has opened is the one of that descriptor after any requests that do not close it. All
  -- requests together are fewer than 2 ^ 64.
  pub open_file-serve :
      (w : W) (earlier : List (Request P)) (p : P) (output : Bool) (calls_left : ℕ)
      → length earlier + calls_left < 2 ^ 64
      → let s = run (libc_file_system calls map) earlier (new calls map w) in
        Opening s
          (calls.open_with p (flags output) s.world)
          (open_file calls map p output s)
          calls_left
  unfolding open_file
  open_file-serve w earlier p output n small =
      let s = run (libc_file_system calls map) earlier (new calls map w) in
      let (le, fresh) =
        run-IsFresh (libc_file_system calls map) table serve-Step earlier (new calls map w)
          (omega (arith, new_descriptor w)) (new-IsFresh w) in
      opening s (calls.open_with p (flags output) s.world) n fresh
        (omega (arith, le, new_descriptor w))
