-- ===== src/File/Os/Safety.antt =====
-- Open files of file/src/file_system/os.rs: the operations as steps of a table of files, and what a
-- descriptor reaches after any of them.
use wispy_vm.File.{Result, ok, err}
use wispy_vm.File.Descriptors.{first_byte, get, get-insert, get-remove}
use wispy_vm.File.Descriptors.Requests.{
  Request, open_request, close_request, read_request, flush_request, write_request, delete_request,
  RequestCloses, AllClose, serve, run, run-IsFresh, run-file,
}
use wispy_vm.File.Descriptors.Runs.{Table, Step, opens, closes, keeps, Closes, IsFresh}
use wispy_vm.File.Os.{
  IoError, corrupted_descriptor, open_options, Host, OsFileSystem, new, file_mut, or_return,
  add_file, open_file, close, read, write, flush, delete, os_file_system,
}
use wispy_vm.Prelude.{
  ℕ, suc, ◌+◌, ◌^◌, ◌<◌, ◌≡◌, ◌≢◌, refl, ◌∙◌, Bool, none, some, List, [], ◌∷◌, length, arith,
}

module _ {W F : Type 0} where
  abbrev table : OsFileSystem W F → Table F
  table s = record { next = s.descriptor; file = get s.files }

  module _ (host : Host W F) where
    abbrev TableStep : (ℕ → Type 0) → OsFileSystem W F → OsFileSystem W F → Type 0
    TableStep Q s s' = (st : Step (table s) (table s')) × Closes Q st

    kept : (Q : ℕ → Type 0) (s : OsFileSystem W F) (w : W) → TableStep Q s (record s { world = w })
    kept Q s w = (keeps refl (λ j. refl), tt)

    add_file-Step :
        (Q : ℕ → Type 0) (s : OsFileSystem W F) (w : W) (f : F)
        → TableStep Q s (add_file host f (record s { world = w }))
    unfolding add_file
    add_file-Step Q s w f = (opens f refl (get-insert s.files s.descriptor f), tt)

    add_file-get :
        (s : OsFileSystem W F) (w : W) (f : F)
        → get (add_file host f (record s { world = w })).files s.descriptor ≡ some f
    unfolding add_file
    add_file-get s w f = get-insert s.files s.descriptor f s.descriptor ∙ ground arith

    opened-Step :
        (Q : ℕ → Type 0) (s : OsFileSystem W F) (w : W) (r : Result IoError F)
        → TableStep Q s
            (or_return {A = F} {B = ℕ} r
              (λ f. (add_file host f (record s { world = w }), ok s.descriptor))
              (record s { world = w })).0
    opened-Step Q s w (ok f) = add_file-Step Q s w f
    opened-Step Q s w (err e) = kept Q s w

    -- An operation on an open file changes the system alone.
    operation-Step :
        {A B : Type 0} (Q : ℕ → Type 0) (s : OsFileSystem W F) (r : Result IoError F)
        (g : F → W × A) (h : OsFileSystem W F → A → OsFileSystem W F × Result IoError B)
        → ((s' : OsFileSystem W F) (a : A) → (h s' a).0 ≡ s')
        → TableStep Q s (or_return r (λ f. h (record s { world = (g f).0 }) (g f).1) s).0
    operation-Step Q s (ok f) g h same =
        rw (same (record s { world = (g f).0 }) (g f).1) (kept Q s (g f).0)
    operation-Step Q s (err e) g h same = kept Q s s.world

    read-world :
        (s' : OsFileSystem W F) (bytes : Result IoError (List ℕ))
        → (or_return bytes (λ b. (s', ok (first_byte b))) s').0 ≡ s'
    read-world s' (ok b) = refl
    read-world s' (err e) = refl

    serve-Step :
        (Q : ℕ → Type 0) (r : Request (List ℕ)) (s : OsFileSystem W F)
        → RequestCloses Q r
        → TableStep Q s (serve (os_file_system host) r s)
    unfolding serve os_file_system open_file close read write flush delete
    serve-Step Q (open_request p output) s q =
        opened-Step Q s (host.open_with (open_options output) p s.world).0
          (host.open_with (open_options output) p s.world).1
    serve-Step Q (close_request d) s q = (closes d refl (get-remove s.files d), q)
    serve-Step Q (read_request d) s q =
        operation-Step Q s (file_mut s d) (λ f. host.read f 1 s.world)
          (λ s' bytes. or_return bytes (λ b. (s', ok (first_byte b))) s') read-world
    serve-Step Q (flush_request d) s q =
        operation-Step Q s (file_mut s d) (λ f. host.flush f s.world) (λ s' a. (s', a))
          (λ s' a. refl)
    serve-Step Q (write_request d byte) s q =
        operation-Step Q s (file_mut s d) (λ f. host.write_all f (byte ∷ []) s.world)
          (λ s' a. (s', a)) (λ s' a. refl)
    serve-Step Q (delete_request p) s q = kept Q s (host.remove_file p s.world).0

    opened-file :
        (s : OsFileSystem W F) (p : List ℕ) (output : Bool) (w : W) (f : F)
        → host.open_with (open_options output) p s.world ≡ (w, ok f)
        → open_file host p output s ≡ (add_file host f (record s { world = w }), ok s.descriptor)
    unfolding open_file
    opened-file s p output w f e = rw e refl

    new_descriptor : (w : W) → (new {F = F} w).descriptor ≡ 0
    unfolding new
    new_descriptor w = refl

    new-IsFresh : (w : W) → IsFresh (table (new w))
    unfolding new get
    new-IsFresh w j le = refl

    file_mut-some :
        (s : OsFileSystem W F) (d : ℕ) (f : F) → get s.files d ≡ some f → file_mut s d ≡ ok f
    unfolding file_mut
    file_mut-some s d f e = rw (e, file_mut)

    file_mut-none :
        (s : OsFileSystem W F) (d : ℕ)
        → get s.files d ≡ none
        → file_mut s d ≡ err corrupted_descriptor
    unfolding file_mut
    file_mut-none s d e = rw (e, file_mut)

    -- In a file system reached from a new one, a file that is opened gets a descriptor without a file,
    -- and is the file of that descriptor after any calls that do not close it, as long as there are
    -- fewer than 2 ^ 64 calls in all.
    pub open_file-run :
        (w : W) (earlier later : List (Request (List ℕ))) (p : List ℕ) (output : Bool) (w' : W)
        (f : F)
        → let s = run (os_file_system host) earlier (new w) in
          host.open_with (open_options output) p s.world ≡ (w', ok f)
          → length earlier + suc (length later) < 2 ^ 64
          → AllClose (λ k. k ≢ s.descriptor) later
          → (file_mut s s.descriptor ≡ err corrupted_descriptor)
            × ((open_file host p output s).1 ≡ ok s.descriptor)
            × (file_mut (run (os_file_system host) later (open_file host p output s).0) s.descriptor
                ≡ ok f)
    open_file-run w earlier later p output w' f e small spared =
        let s = run (os_file_system host) earlier (new w) in
        let (le, fresh) =
          run-IsFresh (os_file_system host) table serve-Step earlier (new w)
            (omega (arith, new_descriptor w)) (new-IsFresh w) in
        let opened = opened-file s p output w' f e in
        let (st, c) = add_file-Step (λ k. Unit {0}) s w' f in
        let at =
          run-file (os_file_system host) table serve-Step s _ st f s.descriptor later c
            (omega (arith, le, new_descriptor w)) fresh spared (add_file-get s w' f) in
        (
          file_mut-none s s.descriptor (fresh s.descriptor (omega arith)),
          rw opened refl,
          rw opened (file_mut-some _ s.descriptor f at),
        )
