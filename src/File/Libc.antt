-- ===== src/File/Libc.antt =====
-- file/src/file_system/libc.rs: the file system over the calls of a C library. These calls, strings of
-- the language C and the map of the open files are of other crates, and parameters.
pub mod Safety
mod Tests
use wispy_vm.Prelude.{
  ℕ, ◌+◌, Bool, true, false, Option, none, some, List, [], ◌∷◌, ◌++◌, length, ltb, if◌then◌else◌,
}
use wispy_vm.Vm.Memory as VmMemory
use wispy_vm.Vm.Value.{Value}
use wispy_vm.File.{FileError, FileSystem, Result, ok, err}
use wispy_vm.File.Descriptors.{IndexMap, first_byte, next_descriptor}
use wispy_vm.File.Utility.{Decoded, path, failed, stuck}
use wispy_vm.File.Utility as Utility

-- The flags that `open` is called with.
pub data OFlags : Type 0 where
  read_only : OFlags
  write_create_truncate : OFlags

unfoldable pub flags : Bool → OFlags
flags true = write_create_truncate
flags false = read_only

-- What `access` tells of a path.
pub data Access : Type 0 where
  found missing refused : Access

-- The calls, over the states `W` of the system, the open files `F` and the paths `P`; `none` is an error.
-- `read` is given the length of the buffer and gives the bytes that it put there; `release` is the drop
-- of a file.
pub record Calls (W F P : Type 0) : Type 0 where
  pub open_with : P → OFlags → W → W × Option F
  pub release : F → W → W
  pub read : F → ℕ → W → W × Option (List ℕ)
  pub write : F → List ℕ → W → W × Option ℕ
  pub fsync : F → W → W × Option (Unit {0})
  pub unlink : P → W → W × Option (Unit {0})
  pub access : P → W → Access
  pub from_bytes_with_nul : List ℕ → Option P

abbrev pub path_size : ℕ
path_size = 128

-- `struct LibcFileSystem`, in the system around it.
pub record LibcFileSystem (W M : Type 0) : Type 0 where
  pub descriptor : ℕ
  pub files : M
  pub world : W

module _ {W F P : Type 0} (calls : Calls W F P) (map : IndexMap F) where
  open map use {Map, empty, find, put, delete as delete_key}

  abbrev pub State : Type 0
  State = LibcFileSystem W Map

  unfoldable pub new : W → State
  new w = record { descriptor = 0; files = empty; world = w }

  unfoldable pub file : State → ℕ → Result FileError F
  file s d = elim (find s.files d) [ some f ↦ ok f | none ↦ err FileError.invalid_file_descriptor ]

  -- `map_err` to an error of the file system, and `?`, in the state that the call has left.
  abbrev pub or_return :
      {A B : Type 0}
      → FileError
      → State
      → W × Option A
      → (A → State → State × Result FileError B)
      → State × Result FileError B
  or_return e s (w, some a) f = f a (record s { world = w })
  or_return e s (w, none) f = (record s { world = w }, err e)

  -- An operation on an open file.
  abbrev pub with_file :
      {B : Type 0}
      → State
      → Result FileError F
      → (F → State × Result FileError B)
      → State × Result FileError B
  with_file s (ok f) g = g f
  with_file s (err e) g = (s, err e)

  unfoldable pub release_old : Option F → W → W
  release_old none w = w
  release_old (some f) w = calls.release f w

  -- The rest of `open`, once the file is opened: it is dropped where the map has no room, and the file
  -- that the descriptor had is dropped where it has one.
  unfoldable pub add_file : F → State → State × Result FileError ℕ
  unfolding release_old
  add_file f s = elim (put s.files s.descriptor f) [
    | none ↦ (record s { world = calls.release f s.world }, err FileError.invalid_file_descriptor)
    | some files ↦ (
      record {
        descriptor = next_descriptor s.descriptor;
        files = files;
        world = release_old (find s.files s.descriptor) s.world;
      },
      ok s.descriptor,
    )
  ]

  unfoldable pub open_file : P → Bool → State → State × Result FileError ℕ
  unfolding add_file flags
  open_file p output s =
      or_return FileError.open_failure s (calls.open_with p (flags output) s.world) add_file

  unfoldable pub close : ℕ → State → State × Result FileError (Unit {0})
  unfolding release_old
  close d s = (
    record s { files = delete_key s.files d; world = release_old (find s.files d) s.world },
    ok tt,
  )

  unfoldable pub read : ℕ → State → State × Result FileError (Option ℕ)
  unfolding file first_byte
  read d s = with_file s (file s d) (λ f.
      or_return FileError.read s (calls.read f 1 s.world) (λ bytes s'. (s', ok (first_byte bytes))))

  unfoldable pub write : ℕ → ℕ → State → State × Result FileError (Unit {0})
  unfolding file
  write d byte s = with_file s (file s d) (λ f.
      or_return FileError.write s (calls.write f (byte ∷ []) s.world) (λ count s'. (s', ok tt)))

  unfoldable pub flush : ℕ → State → State × Result FileError (Unit {0})
  unfolding file
  flush d s =
      with_file s (file s d)
        (λ f. or_return FileError.flush s (calls.fsync f s.world) (λ done s'. (s', ok tt)))

  unfoldable pub delete : P → State → State × Result FileError (Unit {0})
  delete p s = or_return FileError.delete s (calls.unlink p s.world) (λ done s'. (s', ok tt))

  unfoldable pub exists_result : Access → Result FileError Bool
  exists_result found = ok true
  exists_result missing = ok false
  exists_result refused = err FileError.exists

  unfoldable pub exists : P → State → Result FileError Bool
  unfolding exists_result
  exists p s = exists_result (calls.access p s.world)

  unfoldable pub c_string : Option P → Result FileError P
  c_string none = err FileError.path_decode
  c_string (some p) = ok p

  -- The rest of `decode_path`: a zero is added, for which there is to be room. Where the model is stuck
  -- the path is refused, though the fuel of the call is never short.
  unfoldable pub terminated_path : Decoded → Result FileError P
  unfolding c_string
  terminated_path (path bytes) =
      if ltb (length bytes) path_size
      then c_string (calls.from_bytes_with_nul (bytes ++ 0 ∷ []))
      else err FileError.path_decode
  terminated_path failed = err FileError.path_decode
  terminated_path stuck = err FileError.path_decode

  unfoldable pub decode_path : VmMemory.Memory → Value → Result FileError P
  unfolding terminated_path
  decode_path m list = terminated_path (Utility.decode_path (path_size + 2) path_size m list)

  -- `impl FileSystem for LibcFileSystem`
  unfoldable pub libc_file_system : FileSystem State P FileError
  libc_file_system = record {
    open_file = open_file;
    close = close;
    read = read;
    write = write;
    flush = flush;
    delete = delete;
    exists = exists;
    decode_path = decode_path;
  }
