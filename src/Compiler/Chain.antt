-- ===== src/Compiler/Chain.antt =====
-- `std::io::Read::chain`, with which compiler/src/lib.rs and wispy/src/lib.rs put their preludes before a
-- source.
use wispy_vm.Device.{Result, ok, err}
use wispy_vm.Device.ReadWrite.{Reader}
use wispy_vm.Prelude.{
  ℕ, Bool, true, false, Option, none, some, List, [], ◌∷◌, ◌++◌, ◌≡◌, refl, ap, ◌∙◌, if◌then◌else◌,
}

-- `Read` for a slice of bytes.
unfoldable pub read_slice : {X : Type 0} → List ℕ → List ℕ × Result X (Option ℕ)
read_slice [] = ([], ok none)
read_slice (byte ∷ bytes) = (bytes, ok (some byte))

abbrev pub slice_reader : {X : Type 0} → Reader (List ℕ) X
slice_reader = record { read = read_slice }

-- `struct Chain`
pub record Chain (I J : Type 0) : Type 0 where
  pub first : I
  pub second : J
  pub done_first : Bool

module _ {I J X : Type 0} (reader : Reader I X) (reader' : Reader J X) where
  unfoldable pub read_second : Chain I J → Chain I J × Result X (Option ℕ)
  read_second c = let (j, result) = reader'.read c.second in (record c { second = j }, result)

  -- What the first reader gives: its end makes way for the second.
  unfoldable pub first_read : Chain I J → I × Result X (Option ℕ) → Chain I J × Result X (Option ℕ)
  unfolding read_second
  first_read c (i, ok none) = read_second (record c { first = i; done_first = true })
  first_read c (i, ok (some byte)) = (record c { first = i }, ok (some byte))
  first_read c (i, err e) = (record c { first = i }, err e)

  unfoldable pub read_chain : Chain I J → Chain I J × Result X (Option ℕ)
  unfolding first_read
  read_chain c = if c.done_first then read_second c else first_read c (reader.read c.first)

  abbrev pub chain_reader : Reader (Chain I J) X
  chain_reader = record { read = read_chain }

-- `chain`
abbrev pub chain : {I J : Type 0} → I → J → Chain I J
chain i j = record { first = i; second = j; done_first = false }

-- The bytes that a reader gives one after the other, up to its end.
pub data Gives {I X : Type 0} (reader : Reader I X) : I → List ℕ → Type 0 where
  ends : {i : I} (i' : I) → reader.read i ≡ (i', ok none) → Gives reader i []
  gives :
      {i : I} {bytes : List ℕ} (byte : ℕ) (i' : I)
      → reader.read i ≡ (i', ok (some byte))
      → Gives reader i' bytes
      → Gives reader i (byte ∷ bytes)

pub slice-Gives : {X : Type 0} (bytes : List ℕ) → Gives (slice_reader {X = X}) bytes bytes
unfolding read_slice
slice-Gives [] = ends [] refl
slice-Gives (byte ∷ bytes) = gives byte bytes refl (slice-Gives bytes)

module _ {I J X : Type 0} (reader : Reader I X) (reader' : Reader J X) where
  second-Gives :
      {j : J} {bytes : List ℕ} (i : I)
      → Gives reader' j bytes
      → Gives
          (chain_reader reader reader')
          (record { first = i; second = j; done_first = true })
          bytes
  unfolding read_chain
  second-Gives i (ends j' e) =
      ends (record { first = i; second = j'; done_first = true }) (rw (e, read_second))
  second-Gives i (gives byte j' e rest) =
      gives byte (record { first = i; second = j'; done_first = true }) (rw (e, read_second))
        (second-Gives i rest)

  -- The read of a chain, where the first reader is at its end.
  read_chain-end :
      (i i' : I) (j : J)
      → reader.read i ≡ (i', ok none)
      → read_chain reader reader' (chain i j)
        ≡ read_second reader reader' (record { first = i'; second = j; done_first = true })
  unfolding read_chain
  read_chain-end i i' j e = ap (first_read reader reader' (chain i j)) e

  read_chain-byte :
      (i i' : I) (j : J) (byte : ℕ)
      → reader.read i ≡ (i', ok (some byte))
      → read_chain reader reader' (chain i j) ≡ (chain i' j, ok (some byte))
  unfolding read_chain
  read_chain-byte i i' j byte e = ap (first_read reader reader' (chain i j)) e

  -- A chain gives what the first reader gives and then what the second gives.
  pub chain-Gives :
      {i : I} {j : J} {bytes bytes' : List ℕ}
      → Gives reader i bytes
      → Gives reader' j bytes'
      → Gives (chain_reader reader reader') (chain i j) (bytes ++ bytes')
  unfolding read_second
  chain-Gives {i} {j} (ends i' e) (ends j' e') =
      ends (record { first = i'; second = j'; done_first = true })
        (read_chain-end i i' j e ∙ rw (e', read_second))
  chain-Gives {i} {j} (ends i' e) (gives byte j' e' rest) =
      gives byte (record { first = i'; second = j'; done_first = true })
        (read_chain-end i i' j e ∙ rw (e', read_second)) (second-Gives i' rest)
  chain-Gives {i} {j} (gives byte i' e rest) later =
      gives byte (chain i' j) (read_chain-byte i i' j byte e) (chain-Gives rest later)
