-- ===== src/File/Os.antt =====
-- file/src/file_system/os.rs: the file system of the operating system. What the system does with an open
-- file, a file's name or a descriptor of its own is a parameter.
pub mod Safety
mod Tests
use wispy_vm.Prelude.{
  ℕ, ◌+◌, Bool, true, false, not, Option, none, some, List, [], ◌∷◌, if◌then◌else◌,
}
use wispy_vm.Vm.Memory as VmMemory
use wispy_vm.Vm.Value.{Value}
use wispy_vm.File.{FileSystem, Result, ok, err}
use wispy_vm.File.Descriptors.{Files, first_byte, get, insert, remove, next_descriptor}
use wispy_vm.File.Utf8.{is_utf8}
use wispy_vm.File.Utility.{Decoded, path, failed, stuck}
use wispy_vm.File.Utility as Utility

-- `io::Error`: those that the source makes, and those of the system. `unknown` stands where the model
-- of a memory is stuck, and for no error of the source.
pub data IoError : Type 0 where
  corrupted_descriptor path_too_long invalid_utf8 unknown : IoError
  system : ℕ → IoError

-- `OpenOptions`
pub record OpenOptions : Type 0 where
  pub read : Bool
  pub create : Bool
  pub write : Bool
  pub truncate : Bool

-- The options that `open` sets.
abbrev pub open_options : Bool → OpenOptions
open_options output = record {
  read = not output;
  create = output;
  write = output;
  truncate = output;
}

-- The operating system, over its states `W` and the open files `F`. `read` is given the length of the
-- buffer and gives the bytes that it put there; `release` is the drop of a file.
pub record Host (W F : Type 0) : Type 0 where
  pub open_with : OpenOptions → List ℕ → W → W × Result IoError F
  pub release : F → W → W
  pub read : F → ℕ → W → W × Result IoError (List ℕ)
  pub write_all : F → List ℕ → W → W × Result IoError (Unit {0})
  pub flush : F → W → W × Result IoError (Unit {0})
  pub remove_file : List ℕ → W → W × Result IoError (Unit {0})
  pub exists : List ℕ → W → Bool

-- `struct OsFileSystem`, in the system around it.
pub record OsFileSystem (W F : Type 0) : Type 0 where
  pub descriptor : ℕ
  pub files : Files F
  pub world : W

abbrev pub path_size : ℕ
path_size = 256

module _ {W F : Type 0} where
  -- `new`
  unfoldable pub new : W → OsFileSystem W F
  new w = record { descriptor = 0; files = []; world = w }

  unfoldable pub file_mut : OsFileSystem W F → ℕ → Result IoError F
  file_mut s d = elim (get s.files d) [ some f ↦ ok f | none ↦ err corrupted_descriptor ]

  -- `?`, in the state that the call has left.
  abbrev pub or_return :
      {A B : Type 0}
      → Result IoError A
      → (A → OsFileSystem W F × Result IoError B)
      → OsFileSystem W F
      → OsFileSystem W F × Result IoError B
  or_return (ok a) f s = f a
  or_return (err e) f s = (s, err e)

  abbrev pub in_world : {A : Type 0} → OsFileSystem W F → W × A → OsFileSystem W F × A
  in_world s (w, a) = (record s { world = w }, a)

  module _ (host : Host W F) where
    unfoldable pub release_old : Option F → W → W
    release_old none w = w
    release_old (some f) w = host.release f w

    -- After the file is opened: the file that the descriptor had is dropped.
    unfoldable pub add_file : F → OsFileSystem W F → OsFileSystem W F
    unfolding release_old
    add_file f s = record {
      descriptor = next_descriptor s.descriptor;
      files = insert s.files s.descriptor f;
      world = release_old (get s.files s.descriptor) s.world;
    }

    unfoldable pub open_file :
        List ℕ → Bool → OsFileSystem W F → OsFileSystem W F × Result IoError ℕ
    unfolding add_file
    open_file p output s =
        let (s', opened) = in_world s (host.open_with (open_options output) p s.world) in
        or_return opened (λ f. (add_file f s', ok s.descriptor)) s'

    unfoldable pub close : ℕ → OsFileSystem W F → OsFileSystem W F × Result IoError (Unit {0})
    unfolding release_old
    close d s =
        (record s { files = remove s.files d; world = release_old (get s.files d) s.world }, ok tt)

    unfoldable pub read : ℕ → OsFileSystem W F → OsFileSystem W F × Result IoError (Option ℕ)
    unfolding file_mut first_byte
    read d s =
        or_return (file_mut s d)
          (λ f.
            let (s', bytes) = in_world s (host.read f 1 s.world) in
            or_return bytes (λ b. (s', ok (first_byte b))) s')
          s

    unfoldable pub write : ℕ → ℕ → OsFileSystem W F → OsFileSystem W F × Result IoError (Unit {0})
    unfolding file_mut
    write d byte s =
        or_return (file_mut s d) (λ f. in_world s (host.write_all f (byte ∷ []) s.world)) s

    unfoldable pub flush : ℕ → OsFileSystem W F → OsFileSystem W F × Result IoError (Unit {0})
    unfolding file_mut
    flush d s = or_return (file_mut s d) (λ f. in_world s (host.flush f s.world)) s

    unfoldable pub delete : List ℕ → OsFileSystem W F → OsFileSystem W F × Result IoError (Unit {0})
    delete p s = in_world s (host.remove_file p s.world)

    unfoldable pub exists : List ℕ → OsFileSystem W F → Result IoError Bool
    exists p s = ok (host.exists p s.world)

    -- `decode_path`: the bytes of the path, which are to be text.
    unfoldable pub text_path : Decoded → Result IoError (List ℕ)
    text_path (path bytes) = if is_utf8 bytes then ok bytes else err invalid_utf8
    text_path failed = err path_too_long
    text_path stuck = err unknown

    unfoldable pub decode_path : VmMemory.Memory → Value → Result IoError (List ℕ)
    unfolding text_path
    decode_path m list = text_path (Utility.decode_path (path_size + 2) path_size m list)

    -- `impl FileSystem for OsFileSystem`
    unfoldable pub os_file_system : FileSystem (OsFileSystem W F) (List ℕ) IoError
    os_file_system = record {
      open_file = open_file;
      close = close;
      read = read;
      write = write;
      flush = flush;
      delete = delete;
      exists = exists;
      decode_path = decode_path;
    }
