-- ===== src/File/Descriptors.antt =====
-- Open files behind descriptors, as file_system/os.rs and file_system/libc.rs of file/src keep them: a
-- map from descriptors to files, and the counter that names the next one.
pub mod Runs
pub mod Requests
use wispy_vm.Prelude.{
  ℕ, suc, ◌+◌, ◌%◌, ◌^◌, ◌≤◌, ◌≡◌, refl, ap, Option, none, some, List, [], ◌∷◌, ◌==◌, if◌then◌else◌,
  arith,
}

-- `FileDescriptor::wrapping_add(1)`, of the type `usize`.
unfoldable pub next_descriptor : ℕ → ℕ
next_descriptor d = (d + 1) % 2 ^ 64

-- `then_some` of the first byte of the buffer.
unfoldable pub first_byte : List ℕ → Option ℕ
first_byte [] = none
first_byte (byte ∷ _) = some byte

-- A hash map from descriptors.
abbrev pub Files : Type 0 → Type 0
Files F = List (ℕ × F)

module _ {F : Type 0} where
  unfoldable pub get : Files F → ℕ → Option F
  get [] d = none
  get ((k, f) ∷ files) d = if k == d then some f else get files d

  unfoldable pub remove : Files F → ℕ → Files F
  remove [] d = []
  remove ((k, f) ∷ files) d = let rest = remove files d in if k == d then rest else (k, f) ∷ rest

  -- An entry of the same key is replaced.
  unfoldable pub insert : Files F → ℕ → F → Files F
  unfolding remove
  insert files d f = (d, f) ∷ remove files d

  pub get-remove :
      (files : Files F) (d j : ℕ) → get (remove files d) j ≡ (if d == j then none else get files j)
  unfolding get remove
  get-remove [] d j = ground arith
  get-remove ((k, f) ∷ files) d j = ground (arith, get-remove files d j)

  pub get-insert :
      (files : Files F) (d : ℕ) (f : F) (j : ℕ)
      → get (insert files d f) j ≡ (if d == j then some f else get files j)
  unfolding get insert
  get-insert files d f j = ground (arith, get-remove files d j)

-- A map of descriptors to files that can be full, of another crate, with what its documentation says:
-- an insertion that succeeds stores its file and leaves the others, one that fails changes nothing, and
-- so for a removal.
pub record IndexMap (F : Type 0) : Type 1 where
  pub Map : Type 0
  pub empty : Map
  pub find : Map → ℕ → Option F
  pub put : Map → ℕ → F → Option Map
  pub delete : Map → ℕ → Map
  pub find-empty : (d : ℕ) → find empty d ≡ none
  pub find-put :
      (m n : Map) (d : ℕ) (f : F) (j : ℕ)
      → put m d f ≡ some n
      → find n j ≡ (if d == j then some f else find m j)
  pub find-delete : (m : Map) (d j : ℕ) → find (delete m d) j ≡ (if d == j then none else find m j)
