-- ===== src/File/Os/Tests.antt =====
-- A system whose files are numbered in the order in which they are opened.
use wispy_vm.File.{ok, err}
use wispy_vm.File.Descriptors.Requests.{
  Request, open_request, close_request, read_request, write_request, run, serve,
}
use wispy_vm.File.Os.{
  system, corrupted_descriptor, Host, new, file_mut, open_file, close, add_file, release_old,
  os_file_system,
}
use wispy_vm.File.Descriptors.{get, insert, remove, next_descriptor}
use wispy_vm.File.Os.Safety.{open_file-run}
use wispy_vm.Prelude.{ℕ, ◌+◌, ◌≡◌, refl, true, false, List, [], ◌∷◌, arith}

abbrev numbering : Host ℕ ℕ
numbering = record {
  open_with = λ options p w. (w + 1, ok w);
  release = λ f w. w;
  read = λ f n w. (w, ok (f ∷ []));
  write_all = λ f bytes w. (w, err (system 9));
  flush = λ f w. (w, ok tt);
  remove_file = λ p w. (w, ok tt);
  exists = λ p w. true;
}

abbrev two_opened : List (Request (List ℕ))
two_opened = open_request [] true ∷ open_request [] false ∷ close_request 1 ∷ []

abbrev afterwards : List (Request (List ℕ))
afterwards = read_request 2 ∷ close_request 0 ∷ open_request [] false ∷ write_request 7 1 ∷ []

open_file-run_example :
    let s = run (os_file_system numbering) two_opened (new 0) in
    (file_mut s s.descriptor ≡ err corrupted_descriptor)
    × ((open_file numbering [] true s).1 ≡ ok s.descriptor)
    × (file_mut
          (run (os_file_system numbering) afterwards (open_file numbering [] true s).0)
          s.descriptor
        ≡ ok 2)
unfolding run serve os_file_system new open_file close add_file insert remove get next_descriptor
    release_old
open_file-run_example =
    open_file-run numbering 0 two_opened afterwards [] true 3 2 refl (omega arith)
      (tt, ((λ e. absurd (omega (arith, e))), (tt, (tt, tt))))
