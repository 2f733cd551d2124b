-- ===== src/Profiler/Text/Number.antt =====
-- The decimal text of a number is read back.
use wispy_vm.Prelude.{
  ℕ, zero, suc, ◌+◌, ◌-◌, ◌*◌, ◌/◌, ◌%◌, ◌^◌, ◌≤◌, ◌<◌, ◌≡◌, refl, ◌∙◌, [], ◌∷◌, arith, ltb,
  Bool-cases, inl, inr, true, ne→==, ltb→lt, lt→ltb,
}
use wispy_vm.Profiler.{Chars}
use wispy_vm.Profiler.Text.Split.{Avoids}
use wispy_vm.Profiler.Text.{digits, show_number, is_digit, parse_digits, parse_number, number}

parse_digits-digit :
    (n d m : ℕ) (cs : Chars)
    → d < 10
    → n * 10 + d ≡ m
    → m < 2 ^ 128
    → parse_digits n ((b'0' + d) ∷ cs) ≡ parse_digits m cs
unfolding parse_digits
parse_digits-digit n d m cs h e k =
    let test : is_digit (b'0' + d) ≡ true = ground arith in
    let value : n * 10 + (b'0' + d - b'0') ≡ m = omega arith in
    rw (test, value, lt→ltb m (2 ^ 128) k) refl

parse_digits-digits :
    (f n : ℕ) (cs : Chars)
    → n < f
    → n < 2 ^ 128
    → parse_digits 0 (digits f n cs) ≡ parse_digits n cs
unfolding digits
parse_digits-digits zero n cs h k = elim h [ ]
parse_digits-digits (suc f) n cs h k = elim (Bool-cases (ltb n 10)) [
  | inl e ↦ rw e (parse_digits-digit 0 n n cs (ltb→lt n 10 e) (omega arith) k)
  | inr e ↦
      let large : 10 ≤ n = ground arith in
      rw e (
        parse_digits-digits f (n / 10) ((b'0' + n % 10) ∷ cs) (omega arith) (omega arith)
        ∙ parse_digits-digit (n / 10) (n % 10) n cs (omega arith) (omega arith) k)
]

-- The digits start with a digit.
digits-first :
    (f n : ℕ) (cs : Chars) → n < f → (c : ℕ) × (ds : Chars) × (digits f n cs ≡ c ∷ ds) × (b'0' ≤ c)
unfolding digits
digits-first zero n cs h = elim h [ ]
digits-first (suc f) n cs h = elim (Bool-cases (ltb n 10)) [
  | inl e ↦ (b'0' + n, cs, rw e, omega arith)
  | inr e ↦
      let large : 10 ≤ n = ground arith in
      let (c, ds, q, k) = digits-first f (n / 10) ((b'0' + n % 10) ∷ cs) (omega arith) in
      (c, ds, rw (e, q), k)
]

-- Digits hold no character below zero's.
digits-Avoids : (s f n : ℕ) (cs : Chars) → s < b'0' → n < f → Avoids s cs → Avoids s (digits f n cs)
unfolding digits
digits-Avoids s zero n cs l h k = elim h [ ]
digits-Avoids s (suc f) n cs l h k = elim (Bool-cases (ltb n 10)) [
  | inl e ↦ rw e (omega arith, k)
  | inr e ↦
      let large : 10 ≤ n = ground arith in
      rw e (digits-Avoids s f (n / 10) ((b'0' + n % 10) ∷ cs) l (omega arith) (omega arith, k))
]

pub show_number-Avoids : (s n : ℕ) → s < b'0' → Avoids s (show_number n)
unfolding show_number
show_number-Avoids s n l = digits-Avoids s (n + 1) n [] l (omega arith) tt

parse_number-digit :
    (c : ℕ) (cs : Chars) → b'0' ≤ c → parse_number (c ∷ cs) ≡ parse_digits 0 (c ∷ cs)
unfolding parse_number
parse_number-digit c [] h = refl
parse_number-digit c (d ∷ cs) h = rw (ne→== c b'+' (omega arith)) refl

parse_digits-nil : (n : ℕ) → parse_digits n [] ≡ number n
unfolding parse_digits
parse_digits-nil n = refl

-- Every number of 128 bits is read back from its decimal text.
pub parse_number-show_number : (n : ℕ) → n < 2 ^ 128 → parse_number (show_number n) ≡ number n
unfolding show_number
parse_number-show_number n h =
    let (c, ds, q, k) = digits-first (n + 1) n [] (omega arith) in
    rw (q, parse_number-digit c ds k, ← q)
      (parse_digits-digits (n + 1) n [] (omega arith) h ∙ parse_digits-nil n)
