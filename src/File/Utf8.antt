-- ===== src/File/Utf8.antt =====
-- `core::str::from_utf8`, which file/src/file_system/os.rs calls on the bytes of a path.
use wispy_vm.Prelude.{
  ℕ, ◌+◌, ◌/◌, ◌%◌, ◌++◌, Bool, true, false, ◌&&◌, List, [], ◌∷◌, ltb, leb, ◌==◌, if◌then◌else◌,
  ◌≡◌, refl,
}

abbrev within : ℕ → ℕ → ℕ → Bool
within low high b = leb low b && leb b high

abbrev follows : ℕ → Bool
follows b = within 0x80 0xbf b

-- The second byte of a character, after a first byte of three or of four.
unfoldable pub second_of_three : ℕ → ℕ → Bool
second_of_three a b =
    if a == 0xe0 then within 0xa0 0xbf b else if a == 0xed then within 0x80 0x9f b else follows b

unfoldable pub second_of_four : ℕ → ℕ → Bool
second_of_four a b =
    if a == 0xf0 then within 0x90 0xbf b else if a == 0xf4 then within 0x80 0x8f b else follows b

-- The bytes of a character.
unfoldable pub encode_character : ℕ → List ℕ
encode_character c =
    if ltb c 0x80
    then c ∷ []
    else if ltb c 0x800
    then (0xc0 + c / 64) ∷ (0x80 + c % 64) ∷ []
    else if ltb c 0x10000
    then (0xe0 + c / 4096) ∷ (0x80 + c / 64 % 64) ∷ (0x80 + c % 64) ∷ []
    else (0xf0 + c / 262144) ∷ (0x80 + c / 4096 % 64) ∷ (0x80 + c / 64 % 64) ∷ (0x80 + c % 64) ∷ []

-- `str::as_bytes`
unfoldable pub encode : List ℕ → List ℕ
unfolding encode_character
encode [] = []
encode (c ∷ cs) = encode_character c ++ encode cs

-- The bytes are a sequence of characters, each in the shortest form and no surrogate.
unfoldable pub is_utf8 : List ℕ → Bool
unfolding second_of_three second_of_four
is_utf8 [] = true
is_utf8 (a ∷ []) = ltb a 0x80
is_utf8 (a ∷ b ∷ []) = if ltb a 0x80 then ltb b 0x80 else within 0xc2 0xdf a && follows b
is_utf8 (a ∷ b ∷ c ∷ []) =
    let one = is_utf8 (b ∷ c ∷ []) in
    let two = is_utf8 (c ∷ []) in
    if ltb a 0x80
    then one
    else if within 0xc2 0xdf a
    then follows b && two
    else within 0xe0 0xef a && second_of_three a b && follows c
is_utf8 (a ∷ b ∷ c ∷ d ∷ bytes) =
    let one = is_utf8 (b ∷ c ∷ d ∷ bytes) in
    let two = is_utf8 (c ∷ d ∷ bytes) in
    let three = is_utf8 (d ∷ bytes) in
    let four = is_utf8 bytes in
    if ltb a 0x80
    then one
    else if within 0xc2 0xdf a
    then follows b && two
    else if within 0xe0 0xef a
    then second_of_three a b && follows c && three
    else within 0xf0 0xf4 a && second_of_four a b && follows c && follows d && four

-- A letter, the euro sign, and the half of a surrogate pair.
utf8_of_texts :
    (is_utf8 (0x41 ∷ 0xe2 ∷ 0x82 ∷ 0xac ∷ []) && is_utf8 (0xf0 ∷ 0x9f ∷ 0x98 ∷ 0x80 ∷ 0x41 ∷ []))
    ≡ true
unfolding is_utf8
utf8_of_texts = refl

surrogate_of_texts : is_utf8 (0xed ∷ 0xa0 ∷ 0x80 ∷ []) ≡ false
unfolding is_utf8
surrogate_of_texts = refl
