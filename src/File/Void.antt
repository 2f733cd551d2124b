-- ===== src/File/Void.antt =====
-- file/src/file_system/void.rs: the file system that fails at everything.
use wispy_vm.File.{FileError, FileSystem, err}
use wispy_vm.Prelude.{ℕ, List}

-- `impl FileSystem for VoidFileSystem`
unfoldable pub void_file_system : FileSystem (Unit {0}) (List ℕ) FileError
void_file_system = record {
  open_file = λ path output s. (s, err FileError.open_failure);
  close = λ d s. (s, err FileError.close);
  read = λ d s. (s, err FileError.read);
  write = λ d byte s. (s, err FileError.write);
  flush = λ d s. (s, err FileError.flush);
  delete = λ path s. (s, err FileError.delete);
  exists = λ path s. err FileError.exists;
  decode_path = λ m v. err FileError.path_decode;
}
