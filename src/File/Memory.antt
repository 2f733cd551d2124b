-- ===== src/File/Memory.antt =====
-- file/src/file_system/memory.rs: a file system of constant files in memory.
pub mod Reading
mod Tests
use wispy_vm.Prelude.{
  ℕ, zero, suc, ◌+◌, Bool, true, false, ◌&&◌, Option, none, some, List, [], ◌∷◌, get_elem?, ◌==◌,
  if◌then◌else◌, set as set_at,
}
use wispy_vm.Vm.Value.{Value}
use wispy_vm.Vm.Memory as VmMemory
use wispy_vm.File.{FileError, FileSystem, Result, ok, err}

-- `struct MemoryFileEntry`
pub record MemoryFileEntry : Type 0 where
  pub file_index : ℕ
  pub offset : ℕ

abbrev pub FilePath : Type 0
FilePath = List ℕ

-- `struct MemoryFileSystem`
pub record MemoryFileSystem : Type 0 where
  pub files : List (FilePath × List ℕ)
  pub entries : List (Option MemoryFileEntry)

-- The equality of byte slices.
unfoldable pub same_path : FilePath → FilePath → Bool
same_path [] [] = true
same_path [] (y ∷ q) = false
same_path (x ∷ p) [] = false
same_path (x ∷ p) (y ∷ q) = (x == y) && same_path p q

-- The inner loop of `open`: the first entry that is free, from the descriptor `d` on.
unfoldable pub open_entry :
    ℕ → ℕ → List (Option MemoryFileEntry) → Option (ℕ × List (Option MemoryFileEntry))
open_entry file_index d [] = none
open_entry file_index d (none ∷ entries) =
    some (d, some (record { file_index = file_index; offset = 0 }) ∷ entries)
open_entry file_index d (some e ∷ entries) = elim (open_entry file_index (d + 1) entries) [
  | none ↦ none
  | some (descriptor, entries') ↦ some (descriptor, some e ∷ entries')
]

-- The outer loop, over the files from `file_index` on.
unfoldable pub open_files :
    FilePath
    → ℕ
    → List (FilePath × List ℕ)
    → List (Option MemoryFileEntry)
    → Option (ℕ × List (Option MemoryFileEntry))
open_files path file_index [] entries = none
open_files path file_index ((file_path, _) ∷ files) entries =
    let more = open_files path (file_index + 1) files entries in
    if same_path path file_path
    then elim (open_entry file_index 0 entries) [ none ↦ more | some opened ↦ some opened ]
    else more

unfoldable pub open_file :
    FilePath → Bool → MemoryFileSystem → Result FileError (ℕ × MemoryFileSystem)
open_file path true s = err FileError.open_failure
open_file path false s = elim (open_files path 0 s.files s.entries) [
  | none ↦ err FileError.open_failure
  | some (descriptor, entries) ↦ ok (descriptor, record s { entries = entries })
]

unfoldable pub close : ℕ → MemoryFileSystem → Result FileError MemoryFileSystem
close descriptor s = elim (get_elem? s.entries descriptor) [
  | none ↦ err FileError.close
  | some _ ↦ ok (record s { entries = set_at s.entries descriptor none })
]

-- `read` at an open entry: the byte at its offset, or the end.
unfoldable pub read_entry :
    ℕ → MemoryFileEntry → MemoryFileSystem → Result FileError (Option ℕ × MemoryFileSystem)
read_entry descriptor entry s = elim (get_elem? s.files entry.file_index) [
  | none ↦ err FileError.read
  | some (_, content) ↦ elim (get_elem? content entry.offset) [
    | none ↦ ok (none, s)
    | some byte ↦ ok (
      some byte,
      record s {
        entries = set_at s.entries descriptor (some (record entry { offset = entry.offset + 1 }));
      },
    )
  ]
]

unfoldable pub read : ℕ → MemoryFileSystem → Result FileError (Option ℕ × MemoryFileSystem)
read descriptor s = elim (get_elem? s.entries descriptor) [
  | none ↦ err FileError.read
  | some none ↦ err FileError.read
  | some (some entry) ↦ read_entry descriptor entry s
]

unfoldable pub write : ℕ → ℕ → MemoryFileSystem → Result FileError MemoryFileSystem
write descriptor byte s = err FileError.write

unfoldable pub delete : FilePath → MemoryFileSystem → Result FileError MemoryFileSystem
delete path s = err FileError.delete

unfoldable pub flush : ℕ → MemoryFileSystem → Result FileError MemoryFileSystem
flush descriptor s = err FileError.flush

-- The loop of `exists`.
unfoldable pub exists_file : FilePath → List (FilePath × List ℕ) → Bool
exists_file path [] = false
exists_file path ((file_path, _) ∷ files) =
    if same_path path file_path then true else exists_file path files

unfoldable pub exists : FilePath → MemoryFileSystem → Result FileError Bool
exists path s = ok (exists_file path s.files)

-- `impl FileSystem`: an operation that fails leaves the file system as it was. `decode_path` fills a
-- vector of fixed capacity of another crate, so it is a parameter.
abbrev pub with_state :
    {A : Type 0}
    → MemoryFileSystem
    → Result FileError (A × MemoryFileSystem)
    → MemoryFileSystem × Result FileError A
with_state s (ok (a, s')) = (s', ok a)
with_state s (err e) = (s, err e)

abbrev pub after :
    MemoryFileSystem
    → Result FileError MemoryFileSystem
    → MemoryFileSystem × Result FileError (Unit {0})
after s (ok s') = (s', ok tt)
after s (err e) = (s, err e)

unfoldable pub file_system :
    (VmMemory.Memory → Value → Result FileError FilePath)
    → FileSystem MemoryFileSystem FilePath FileError
file_system decode_path = record {
  open_file = λ path output s. with_state s (open_file path output s);
  close = λ d s. after s (close d s);
  read = λ d s. with_state s (read d s);
  write = λ d byte s. after s (write d byte s);
  flush = λ d s. after s (flush d s);
  delete = λ path s. after s (delete path s);
  exists = exists;
  decode_path = decode_path;
}
