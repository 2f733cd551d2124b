-- ===== src/Device/Buffer/Tests.antt =====
-- A buffer of several parts, as in the tests of device/src/device/libc/buffer.rs.
use wispy_vm.Device.Buffer.{Buffer, new, read}
use wispy_vm.Device.Buffer.Reading.{Reads, read-Reads}
use wispy_vm.Prelude.{ℕ, ◌≡◌, refl, Option, some, List, [], ◌∷◌}

abbrev parts : List (List ℕ)
parts = [] ∷ (1 ∷ []) ∷ (2 ∷ 3 ∷ []) ∷ []

read_first :
    read (new parts)
    ≡ some (some 1, record { data_buffers = parts; buffer_index = 1; byte_index = 1 })
unfolding read new
read_first = refl

read-Reads_example :
    (result : Option ℕ) × (b' : Buffer) × (read (new parts) ≡ some (result, b'))
    × Reads (new parts) result b'
read-Reads_example = read-Reads (new parts)
