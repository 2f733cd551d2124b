-- ===== src/Vm/Cons.antt =====
-- vm/src/cons.rs: a heap address with a 16-bit tag, in a boxed word.
use wispy_vm.Prelude.{ℕ, ◌+◌, ◌*◌, ◌/◌, ◌%◌, ◌^◌, ◌<◌, ◌≡◌, Bool, true, refl, arith, ◌==◌}
use wispy_vm.Vm.ValueInner.{word, IsWord, box_cons, unbox_cons, is_cons}

abbrev pub Tag : Type 0
Tag = ℕ

abbrev pub tag_base : ℕ
tag_base = 2 ^ 16

-- `struct Cons(u64)`
abbrev pub Cons : Type 0
Cons = ℕ

unfoldable pub new : ℕ → Cons
unfolding box_cons
new i = box_cons (i * tag_base % word)

unfoldable pub index : Cons → ℕ
unfolding unbox_cons
index c = unbox_cons c / tag_base

unfoldable pub tag : Cons → Tag
unfolding unbox_cons
tag c = unbox_cons c % tag_base

-- `unbox & !MASK | (tag & MASK)`
unfoldable pub set_tag : Cons → Tag → Cons
unfolding unbox_cons box_cons
set_tag c t = box_cons (unbox_cons c / tag_base * tag_base + t % tag_base)

-- A cons can never point to an odd index.
unfoldable pub never : Cons
unfolding new
never = new 1

-- Two conses are equal if their addresses are.
unfoldable pub eq : Cons → Cons → Bool
unfolding index
eq a b = index a == index b

-- The addresses that fit beside the tag.
abbrev pub IsAddress : ℕ → Type 0
IsAddress i = i < 2 ^ 47

pub index-new : (i : ℕ) → IsAddress i → index (new i) ≡ i
unfolding index new
index-new i h = omega arith

pub tag-new : (i : ℕ) → IsAddress i → tag (new i) ≡ 0
unfolding tag new
tag-new i h = omega arith

pub index-set_tag : (c : Cons) (t : Tag) → IsWord c → index (set_tag c t) ≡ index c
unfolding index set_tag
index-set_tag c t h = omega arith

pub tag-set_tag : (c : Cons) (t : Tag) → IsWord c → tag (set_tag c t) ≡ t % tag_base
unfolding tag set_tag
tag-set_tag c t h = omega arith

pub new-IsWord : (i : ℕ) → IsWord (new i)
unfolding new
new-IsWord i = omega arith

pub set_tag-IsWord : (c : Cons) (t : Tag) → IsWord (set_tag c t)
unfolding set_tag
set_tag-IsWord c t = omega arith

pub is_cons-new : (i : ℕ) → is_cons (new i) ≡ true
unfolding is_cons new
is_cons-new i = ground arith

pub is_cons-set_tag : (c : Cons) (t : Tag) → is_cons (set_tag c t) ≡ true
unfolding is_cons set_tag
is_cons-set_tag c t = ground arith

pub index-never : index never ≡ 1
unfolding index never
index-never = refl

-- Two words that are conses are the same if their addresses and their tags are.
pub eq_of_parts :
    (a b : Cons)
    → IsWord a
    → IsWord b
    → is_cons a ≡ true
    → is_cons b ≡ true
    → index a ≡ index b
    → tag a ≡ tag b
    → a ≡ b
unfolding index tag is_cons
eq_of_parts a b ha hb ca cb e f = ground arith

pub tag-lt : (c : Cons) → tag c < tag_base
unfolding tag
tag-lt c = omega arith

pub never-IsWord : IsWord never
unfolding never
never-IsWord = omega arith

pub eq-never : (c : Cons) → eq c never ≡ (index c == 1)
unfolding eq never
eq-never c = refl
