-- ===== src/File/Memory/Tests.antt =====
-- A file system of one file, as in the unit tests of file/src/file_system/memory.rs, and the
-- theorems at it.
use wispy_vm.Prelude.{
  ℕ, suc, ◌≤◌, ◌<◌, ◌≡◌, ◌⊎◌, refl, true, false, none, some, List, [], ◌∷◌, get_elem?, length,
}
use wispy_vm.File.{FileError, ok, err}
use wispy_vm.File.Memory.{MemoryFileSystem, same_path, open_file, close, read, exists_file, exists}
use wispy_vm.File.Memory.Reading.{lookup, read_all, IsFull, open_file-read_all, read-close}

abbrev one_file : MemoryFileSystem
one_file = record { files = (102 ∷ 111 ∷ [], 98 ∷ 97 ∷ 114 ∷ []) ∷ []; entries = none ∷ none ∷ [] }

foo_exists : exists (102 ∷ 111 ∷ []) one_file ≡ ok true
unfolding exists exists_file same_path
foo_exists = refl

no_output : open_file (102 ∷ 111 ∷ []) true one_file ≡ err FileError.open_failure
unfolding open_file
no_output = refl

open_file-read_all_example :
    ((open_file (102 ∷ 111 ∷ []) false one_file ≡ err FileError.open_failure)
      × ((lookup (102 ∷ 111 ∷ []) one_file.files ≡ none) ⊎ IsFull one_file.entries))
    ⊎ ((d : ℕ) × (s' : MemoryFileSystem) × (content : List ℕ) × (open_file
            (102 ∷ 111 ∷ [])
            false
            one_file
          ≡ ok (d, s'))
        × (lookup (102 ∷ 111 ∷ []) one_file.files ≡ some content)
        × (get_elem? one_file.entries d ≡ some none)
        × (read_all (suc (length content)) d s' ≡ some content))
open_file-read_all_example = open_file-read_all (102 ∷ 111 ∷ []) one_file

read-close_example :
    ((length one_file.entries ≤ 1)
      × (close 1 one_file ≡ err FileError.close)
      × (read 1 one_file ≡ err FileError.read))
    ⊎ ((1 < length one_file.entries)
        × ((s' : MemoryFileSystem) × (close 1 one_file ≡ ok s')
            × (s'.files ≡ one_file.files)
            × (read 1 s' ≡ err FileError.read)))
read-close_example = read-close 1 one_file
