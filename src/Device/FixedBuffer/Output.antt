-- ===== src/Device/FixedBuffer/Output.antt =====
-- What is written to a device of device/src/device/fixed_buffer.rs is its output.
use wispy_vm.Prelude.{
  ℕ, zero, suc, ◌+◌, ◌≤◌, ◌<◌, ◌≡◌, refl, sym, ap, ◌∙◌, some, List, [], ◌∷◌, ◌++◌, get_elem?, take,
  drop, set as set_at, length, arith, length-set, Option-cases, inl, inr, ◌⊎◌, append_assoc,
  append-nil, get_elem?-ge, get_elem?-lt,
}
use wispy_vm.Device.{BufferError, Result, ok, err}
use wispy_vm.Device.FixedBuffer.{FixedBufferDevice, output, error, write}

-- A byte written behind the first `i` of a buffer stands behind them.
take-set :
    (xs : List ℕ) (i x byte : ℕ)
    → get_elem? xs i ≡ some x
    → take (suc i) (set_at xs i byte) ≡ take i xs ++ (byte ∷ [])
take-set [] i x byte e = cc
take-set (y ∷ xs) zero x byte e = refl
take-set (y ∷ xs) (suc i) x byte e = ap (λ ys. y ∷ ys) (take-set xs i x byte e)

-- What stands behind the byte stays.
drop-set : (xs : List ℕ) (i byte : ℕ) → drop (suc i) (set_at xs i byte) ≡ drop (suc i) xs
drop-set [] i byte = refl
drop-set (y ∷ xs) zero byte = refl
drop-set (y ∷ xs) (suc i) byte = drop-set xs i byte

-- A write fails exactly when the buffer is full; else its byte stands behind the output, whose index
-- moves by one, and nothing else changes: neither the buffer behind the byte nor its size, nor the
-- error output, with its buffer and index, nor the input and its index.
pub output-write :
    (byte : ℕ) (d : FixedBufferDevice)
    → ((length d.output_buffer ≤ d.output_index) × (write byte d ≡ err BufferError.write))
      ⊎ ((d.output_index < length d.output_buffer)
          × ((d' : FixedBufferDevice) × (write byte d ≡ ok d')
              × (output d' ≡ output d ++ (byte ∷ []))
              × (error d' ≡ error d)
              × (d'.input_index ≡ d.input_index)
              × (d'.output_index ≡ d.output_index + 1)
              × (length d'.output_buffer ≡ length d.output_buffer)
              × (drop (suc d.output_index) d'.output_buffer
                  ≡ drop (suc d.output_index) d.output_buffer)
              × (d'.input ≡ d.input)
              × (d'.error_buffer ≡ d.error_buffer)
              × (d'.error_index ≡ d.error_index)))
unfolding write output error
output-write byte d = elim (Option-cases (get_elem? d.output_buffer d.output_index)) [
  | inl e ↦ inl (get_elem?-ge d.output_buffer d.output_index e, rw (e, write) refl)
  | inr (x, e) ↦
      let d' : FixedBufferDevice = record d {
        output_buffer = set_at d.output_buffer d.output_index byte;
        output_index = d.output_index + 1;
      } in
      let next : d.output_index + 1 ≡ suc d.output_index = omega arith in
      inr (
        get_elem?-lt d.output_buffer d.output_index x e,
        (
          d',
          rw (e, write) refl,
          ap (λ n. take n d'.output_buffer) next ∙ take-set d.output_buffer d.output_index x byte e,
          refl,
          refl,
          refl,
          length-set d.output_buffer d.output_index byte,
          drop-set d.output_buffer d.output_index byte,
          refl,
          refl,
          refl,
        ),
      )
]

-- Bytes written one after the other, up to the first error.
unfoldable pub write_all : List ℕ → FixedBufferDevice → Result BufferError FixedBufferDevice
write_all [] d = ok d
write_all (byte ∷ bytes) d = elim (write byte d) [ err e ↦ err e | ok d' ↦ write_all bytes d' ]

-- Bytes for which the buffer has room are written without an error, and stand behind the output.
pub output-write_all :
    (bytes : List ℕ) (d : FixedBufferDevice)
    → d.output_index + length bytes ≤ length d.output_buffer
    → (d' : FixedBufferDevice) × (write_all bytes d ≡ ok d') × (output d' ≡ output d ++ bytes)
unfolding write_all
output-write_all [] d h = (d, refl, sym (append-nil (output d)))
output-write_all (byte ∷ bytes) d h = elim (output-write byte d) [
  | inl (full, _) ↦ absurd (omega arith)
  | inr (room, (d', run, more, _, _, index, size, _, _, _, _)) ↦
      let (d'', runs, rest) = output-write_all bytes d' (omega arith) in
      (
        d'',
        rw (run, write_all, runs),
        rest ∙ ap (λ xs. xs ++ bytes) more ∙ append_assoc (output d) (byte ∷ []) bytes,
      )
]
