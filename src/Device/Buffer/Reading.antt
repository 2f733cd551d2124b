-- ===== src/Device/Buffer/Reading.antt =====
-- A buffer is read as the bytes of all its parts, one after another.
use wispy_vm.Device.Buffer.{Buffer, new, read_raw, read}
use wispy_vm.Prelude.{
  ℕ, zero, suc, ◌+◌, ◌<◌, ◌≡◌, refl, ◌∙◌, inl, inr, Option, none, some, List, [], ◌∷◌, ◌++◌,
  get_elem?, length, drop, drop_end, drop_next, get_elem?-lt, Option-cases, arith,
}

abbrev pub concat : List (List ℕ) → List ℕ
concat [] = []
concat (bytes ∷ rest) = bytes ++ concat rest

-- The rest of the first part, and the other parts.
abbrev pub from_byte : ℕ → List (List ℕ) → List ℕ
from_byte i [] = []
from_byte i (bytes ∷ rest) = drop i bytes ++ concat rest

-- The bytes that are still to be read.
unfoldable pub remaining : Buffer → List ℕ
remaining b = from_byte b.byte_index (drop b.buffer_index b.data_buffers)

from_byte-zero : (parts : List (List ℕ)) → from_byte 0 parts ≡ concat parts
from_byte-zero [] = refl
from_byte-zero (bytes ∷ rest) = refl

-- What a read gives is the first of the remaining bytes, and the rest remains; at the end it is none.
abbrev pub Reads : Buffer → Option ℕ → Buffer → Type 0
Reads b none b' = (remaining b ≡ []) × (remaining b' ≡ [])
Reads b (some byte) b' = remaining b ≡ byte ∷ remaining b'

remaining-end : (b : Buffer) → get_elem? b.data_buffers b.buffer_index ≡ none → remaining b ≡ []
unfolding remaining
remaining-end b e = rw (drop_end b.data_buffers b.buffer_index e) refl

remaining-part :
    (b : Buffer) (bytes : List ℕ)
    → get_elem? b.data_buffers b.buffer_index ≡ some bytes
    → remaining b ≡ drop b.byte_index bytes ++ concat (drop (suc b.buffer_index) b.data_buffers)
unfolding remaining
remaining-part b bytes e = rw (drop_next b.data_buffers b.buffer_index bytes e) refl

remaining-next :
    (b : Buffer)
    → remaining (record b { buffer_index = b.buffer_index + 1; byte_index = 0 })
      ≡ concat (drop (suc b.buffer_index) b.data_buffers)
unfolding remaining
remaining-next b =
    let next : b.buffer_index + 1 ≡ suc b.buffer_index = omega arith in
    rw next (from_byte-zero (drop (suc b.buffer_index) b.data_buffers))

remaining-byte :
    (b : Buffer) (bytes : List ℕ) (byte : ℕ)
    → get_elem? b.data_buffers b.buffer_index ≡ some bytes
    → get_elem? bytes b.byte_index ≡ some byte
    → remaining b ≡ byte ∷ remaining (record b { byte_index = b.byte_index + 1 })
remaining-byte b bytes byte e f =
    let next : b.byte_index + 1 ≡ suc b.byte_index = omega arith in
    rw
      (
        remaining-part b bytes e,
        remaining-part (record b { byte_index = b.byte_index + 1 }) bytes e,
        drop_next bytes b.byte_index byte f,
        next,
      )
      refl

remaining-skip :
    (b : Buffer) (bytes : List ℕ)
    → get_elem? b.data_buffers b.buffer_index ≡ some bytes
    → get_elem? bytes b.byte_index ≡ none
    → remaining b ≡ remaining (record b { buffer_index = b.buffer_index + 1; byte_index = 0 })
remaining-skip b bytes e f =
    rw (remaining-part b bytes e, drop_end bytes b.byte_index f, remaining-next b) refl

Reads-same :
    (a b : Buffer) (result : Option ℕ) (b' : Buffer)
    → remaining a ≡ remaining b
    → Reads b result b'
    → Reads a result b'
Reads-same a b none b' e r = (e ∙ r.0, r.1)
Reads-same a b (some byte) b' e r = e ∙ r

read_raw-Reads :
    (fuel : ℕ) (b : Buffer)
    → length b.data_buffers < fuel + b.buffer_index
    → 0 < fuel
    → (result : Option ℕ) × (b' : Buffer) × (read_raw fuel b ≡ some (result, b'))
      × Reads b result b'
unfolding read_raw
read_raw-Reads zero b h k = absurd (omega arith)
read_raw-Reads (suc fuel) b h k = elim (Option-cases (get_elem? b.data_buffers b.buffer_index)) [
  | inl e ↦ (none, b, rw (e, read_raw) refl, (remaining-end b e, remaining-end b e))
  | inr (bytes, e) ↦ elim (Option-cases (get_elem? bytes b.byte_index)) [
    | inl f ↦
        let after = record b { buffer_index = b.buffer_index + 1; byte_index = 0 } in
        let inside = get_elem?-lt b.data_buffers b.buffer_index bytes e in
        let (result, b', run, reads) = read_raw-Reads fuel after (omega arith) (omega arith) in
        (
          result,
          b',
          rw (e, f, read_raw) run,
          Reads-same b after result b' (remaining-skip b bytes e f) reads,
        )
    | inr (byte, f) ↦ (
      some byte,
      record b { byte_index = b.byte_index + 1 },
      rw (e, f, read_raw) refl,
      remaining-byte b bytes byte e f,
    )
  ]
]

-- A read ends, gives the first of the remaining bytes and leaves the others, or gives none where no
-- byte remains.
pub read-Reads :
    (b : Buffer)
    → (result : Option ℕ) × (b' : Buffer) × (read b ≡ some (result, b')) × Reads b result b'
unfolding read
read-Reads b = read_raw-Reads (length b.data_buffers + 1) b (omega arith) (omega arith)

-- In a new buffer all bytes of all parts remain.
pub remaining-new : (parts : List (List ℕ)) → remaining (new parts) ≡ concat parts
unfolding remaining new
remaining-new parts = from_byte-zero parts
