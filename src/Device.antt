-- ===== src/Device.antt =====
-- The crate device: the interface of device/src/device.rs, fixed buffers, and the primitives.
pub mod FixedBuffer
pub mod Void
pub mod ReadWrite
pub mod Stdio
pub mod Libc
pub mod Buffer
pub mod Primitives
use wispy_vm.Prelude.{ℕ, Option}

-- `enum BufferError`
pub data BufferError : Type 0 where
  read : BufferError
  write : BufferError

-- What an operation returns: a value, or an error of the device.
pub data Result (E A : Type 0) : Type 0 where
  ok : A → Result E A
  err : E → Result E A

-- `trait Device`, over the states `S` of a device and its errors. An operation that fails can leave another state.
pub record Device (S E : Type 0) : Type 0 where
  pub read : S → S × Result E (Option ℕ)
  pub write : ℕ → S → S × Result E (Unit {0})
  pub write_error : ℕ → S → S × Result E (Unit {0})
