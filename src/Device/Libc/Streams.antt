-- ===== src/Device/Libc/Streams.antt =====
-- device/src/device/libc/stdio.rs: the standard streams.
use wispy_vm.Device.{Result, ok, err}
use wispy_vm.Device.Libc.{LibcError, Read, Write, stdin, stdout, stderr}
use wispy_vm.Prelude.{ℕ, Option, none, some, List, [], ◌∷◌, ◌==◌, if◌then◌else◌}

-- The calls on a stream, over the states `W` of the stream; `none` is an error. `read` is given the
-- length of the buffer and gives the bytes that it put there, `write` how many bytes it took.
pub record Descriptors (W : Type 0) : Type 0 where
  pub read : LibcError → ℕ → W → W × Option (List ℕ)
  pub write : LibcError → List ℕ → W → W × Option ℕ

-- A read that gives other than one byte is the end.
unfoldable pub one_byte : Option (List ℕ) → Result LibcError (Option ℕ)
one_byte none = err stdin
one_byte (some []) = ok none
one_byte (some (byte ∷ [])) = ok (some byte)
one_byte (some (byte ∷ _ ∷ _)) = ok none

-- A write that takes other than one byte is an error.
unfoldable pub one_written : LibcError → Option ℕ → Result LibcError (Unit {0})
one_written e none = err e
one_written e (some count) = if count == 1 then ok tt else err e

-- A stream is named by the error that is its own.
module _ {W : Type 0} (calls : Descriptors W) where
  -- `impl Read for Stdin`
  unfoldable pub stdin_reader : Read W LibcError
  unfolding one_byte
  stdin_reader = record {
    read = λ w. let (w', bytes) = calls.read stdin 1 w in (w', one_byte bytes);
  }

  -- The function `write`.
  unfoldable pub write_byte : LibcError → ℕ → W → W × Result LibcError (Unit {0})
  unfolding one_written
  write_byte stream byte w =
      let (w', count) = calls.write stream (byte ∷ []) w in (w', one_written stream count)

  -- `impl Write for Stdout` and `impl Write for Stderr`
  unfoldable pub stdout_writer : Write W LibcError
  unfolding write_byte
  stdout_writer = record { write = write_byte stdout }

  unfoldable pub stderr_writer : Write W LibcError
  unfolding write_byte
  stderr_writer = record { write = write_byte stderr }
