-- ===== src/File/Libc/Tests.antt =====
-- A map that holds a number of entries at most, and calls that number the files.
use wispy_vm.File.Descriptors.{Files, IndexMap, get, get-insert, get-remove, insert, remove}
use wispy_vm.File.Descriptors.Requests.{Request, open_request, close_request, run}
use wispy_vm.File.Libc.{Calls, missing, flags, new, open_file, libc_file_system}
use wispy_vm.File.Libc.Safety.{Opening, open_file-serve}
use wispy_vm.Prelude.{
  ℕ, ◌+◌, ◌≡◌, refl, true, false, Option, none, some, List, [], ◌∷◌, length, ltb, ◌==◌,
  if◌then◌else◌, arith,
}

module _ {F : Type 0} where
  abbrev bounded_insert : ℕ → Files F → ℕ → F → Option (Files F)
  bounded_insert capacity files d f = elim (get files d) [
    | some _ ↦ some (insert files d f)
    | none ↦ if ltb (length files) capacity then some (insert files d f) else none
  ]

  get-bounded_insert :
      (capacity : ℕ) (files files' : Files F) (d : ℕ) (f : F) (j : ℕ)
      → bounded_insert capacity files d f ≡ some files'
      → get files' j ≡ (if d == j then some f else get files j)
  get-bounded_insert capacity files files' d f j e = ground (arith, get-insert files d f j)

get-nil : {F : Type 0} (d : ℕ) → get {F = F} [] d ≡ none
unfolding get
get-nil d = refl

abbrev bounded : (F : Type 0) → ℕ → IndexMap F
bounded F capacity = record {
  Map = Files F;
  empty = [];
  find = get;
  put = bounded_insert capacity;
  delete = remove;
  find-empty = λ d. get-nil d;
  find-put = get-bounded_insert capacity;
  find-delete = get-remove;
}

abbrev numbering : Calls ℕ ℕ (List ℕ)
numbering = record {
  open_with = λ p o w. (w + 1, some w);
  release = λ f w. w;
  read = λ f n w. (w, some []);
  write = λ f bytes w. (w, some 1);
  fsync = λ f w. (w, some tt);
  unlink = λ p w. (w, none);
  access = λ p w. missing;
  from_bytes_with_nul = λ bytes. some bytes;
}

abbrev two_opened : List (Request (List ℕ))
two_opened = open_request [] true ∷ open_request [] false ∷ close_request 1 ∷ []

open_file-serve_example :
    let s =
      run (libc_file_system numbering (bounded ℕ 2)) two_opened (new numbering (bounded ℕ 2) 0) in
    Opening numbering
      (bounded ℕ 2)
      s
      (numbering.open_with [] (flags true) s.world)
      (open_file numbering (bounded ℕ 2) [] true s)
      100
open_file-serve_example =
    open_file-serve numbering (bounded ℕ 2) 0 two_opened [] true 100 (omega arith)
