-- ===== src/File/Primitives.antt =====
-- file/src/primitive_set.rs: the primitives of files, over any file system.
use wispy_vm.Prelude.{ℕ, zero, suc, ◌%◌, Bool, false, not, Option, none, some}
use wispy_vm.Vm.Error
use wispy_vm.Vm.ValueInner.{from_i64, to_i64}
use wispy_vm.Vm.Value
use wispy_vm.Vm.Value.{Value}
use wispy_vm.Vm.Memory.{Memory, M}
use wispy_vm.Vm.Memory.Stack.{boolean, pop, push, push_boolean}
use wispy_vm.Primitive.{Attempt, Operation, done, failed, ◌>>=◌, ◌>>◌, fail, on_memory}
use wispy_vm.File.{FileError, FileSystem, Result, ok, err}

-- `enum PrimitiveError`
pub data PrimitiveError : Type 0 where
  file : FileError → PrimitiveError
  vm : Error.Error → PrimitiveError

unfoldable pub is_critical : PrimitiveError → Bool
unfolding Error.is_critical
is_critical (file e) = false
is_critical (vm e) = Error.is_critical e

-- A byte is a number, and the end of a file is false.
unfoldable pub push_byte : Option ℕ → M (Unit {0})
push_byte none = push_boolean false
push_byte (some byte) = push (from_i64 byte)

module _ {S E : Type 0} where
  abbrev pub after_file :
      {A : Type 0} → FileError → S × Result E A → Memory → S × Attempt PrimitiveError A
  after_file e (s, ok a) m = (s, done a m)
  after_file e (s, err _) m = (s, failed (file e) m)

  -- An operation of a file system. Its error is replaced by `e`, whatever it is.
  abbrev pub on_file :
      {A : Type 0} → FileError → (S → S × Result E A) → Operation PrimitiveError S A
  on_file e f s m = after_file e (f s) m

  module _ {P : Type 0} (file_system : FileSystem S P E) where
    abbrev pub decoded_path : Value → Operation PrimitiveError S P
    decoded_path list s m = after_file FileError.path_decode (s, file_system.decode_path m list) m

    -- The second operand is false for a file that is read.
    unfoldable pub open_primitive : Operation PrimitiveError S (Unit {0})
    open_primitive = do
      output ← on_memory vm pop
      list ← on_memory vm pop
      path ← decoded_path list
      f ← on_memory vm (boolean false)
      descriptor ←
          on_file FileError.open_failure (file_system.open_file path (not (Value.eq output f)))
      on_memory vm (push (from_i64 descriptor))

    unfoldable pub close_primitive : Operation PrimitiveError S (Unit {0})
    close_primitive = do
      descriptor ← on_memory vm pop
      on_file FileError.close (file_system.close (to_i64 descriptor))
      on_memory vm (push_boolean false)

    unfoldable pub read_primitive : Operation PrimitiveError S (Unit {0})
    read_primitive = do
      descriptor ← on_memory vm pop
      byte ← on_file FileError.read (file_system.read (to_i64 descriptor))
      on_memory vm (push_byte byte)

    unfoldable pub write_primitive : Operation PrimitiveError S (Unit {0})
    write_primitive = do
      byte ← on_memory vm pop
      descriptor ← on_memory vm pop
      on_file FileError.write (file_system.write (to_i64 descriptor) (to_i64 byte % 256))
      on_memory vm (push_boolean false)

    unfoldable pub delete_primitive : Operation PrimitiveError S (Unit {0})
    delete_primitive = do
      list ← on_memory vm pop
      path ← decoded_path list
      on_file FileError.delete (file_system.delete path)
      on_memory vm (push_boolean false)

    unfoldable pub exists_primitive : Operation PrimitiveError S (Unit {0})
    exists_primitive = do
      list ← on_memory vm pop
      path ← decoded_path list
      found ← on_file FileError.exists (λ s. (s, file_system.exists path s))
      on_memory vm (push_boolean found)

    unfoldable pub flush_primitive : Operation PrimitiveError S (Unit {0})
    flush_primitive = do
      descriptor ← on_memory vm pop
      on_file FileError.flush (file_system.flush (to_i64 descriptor))
      on_memory vm (push_boolean false)

    -- `operate` of `FilePrimitiveSet`: the primitives in the order of `Primitive`.
    unfoldable pub operate : ℕ → Operation PrimitiveError S (Unit {0})
    operate zero = open_primitive
    operate (suc zero) = close_primitive
    operate (suc (suc zero)) = read_primitive
    operate (suc (suc (suc zero))) = write_primitive
    operate (suc (suc (suc (suc zero)))) = delete_primitive
    operate (suc (suc (suc (suc (suc zero))))) = exists_primitive
    operate (suc (suc (suc (suc (suc (suc zero)))))) = flush_primitive
    operate (suc (suc (suc (suc (suc (suc (suc p))))))) = fail (vm Error.illegal_primitive)
