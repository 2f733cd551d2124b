-- ===== src/Profiler/Text/Split.antt =====
-- Splitting text that was joined.
use wispy_vm.Prelude.{
  ℕ, ◌≡◌, refl, sym, ◌≢◌, ap, List, [], ◌∷◌, ◌++◌, ◌==◌, ne→==, eq→==, All, Bool-cases, inl, inr,
  ==→eq,
}
use wispy_vm.Profiler.{Chars}
use wispy_vm.Profiler.Text.{split, cons_first}

-- The character does not occur in the text.
abbrev pub Avoids : ℕ → Chars → Type 0
Avoids s cs = All (λ c. c ≢ s) cs

pub Avoids-append : (s : ℕ) (cs ds : Chars) → Avoids s cs → Avoids s ds → Avoids s (cs ++ ds)
Avoids-append s [] ds h k = k
Avoids-append s (c ∷ cs) ds h k = (h.0, Avoids-append s cs ds h.1 k)

-- A piece without the separator is the first one before a separator, and the only one at the end.
pub split-piece :
    (s : ℕ) (cs rest : Chars) → Avoids s cs → split s (cs ++ (s ∷ rest)) ≡ cs ∷ split s rest
unfolding split
split-piece s [] rest h = rw (eq→== s s refl)
split-piece s (c ∷ cs) rest h = rw (ne→== c s h.0) (ap (cons_first c) (split-piece s cs rest h.1))

pub split-last : (s : ℕ) (cs : Chars) → Avoids s cs → split s cs ≡ cs ∷ []
unfolding split
split-last s [] h = refl
split-last s (c ∷ cs) h = rw (ne→== c s h.0) (ap (cons_first c) (split-last s cs h.1))

-- The pieces with the separator between them.
unfoldable pub join : ℕ → List Chars → Chars
join s [] = []
join s (p ∷ []) = p
join s (p ∷ q ∷ ps) = p ++ (s ∷ join s (q ∷ ps))

pub split-join :
    (s : ℕ) (p : Chars) (ps : List Chars)
    → All (Avoids s) (p ∷ ps)
    → split s (join s (p ∷ ps)) ≡ p ∷ ps
unfolding join
split-join s p [] h = split-last s p h.0
split-join s p (q ∷ ps) h =
    rw (split-piece s p (join s (q ∷ ps)) h.0) (ap (λ r. p ∷ r) (split-join s q ps h.1))

join-cons_first :
    (s c : ℕ) (p : Chars) (ps : List Chars) → join s (cons_first c (p ∷ ps)) ≡ c ∷ join s (p ∷ ps)
unfolding join
join-cons_first s c p [] = refl
join-cons_first s c p (q ∷ ps) = refl

-- A split has a first piece.
pub split-cons : (s : ℕ) (cs : Chars) → (p : Chars) × (ps : List Chars) × (split s cs ≡ p ∷ ps)
unfolding split
split-cons s [] = ([], [], refl)
split-cons s (c ∷ cs) = elim (Bool-cases (c == s)) [
  | inl e ↦ ([], split s cs, rw e)
  | inr e ↦ let (p, ps, q) = split-cons s cs in (c ∷ p, ps, rw e (ap (cons_first c) q))
]

join-nil : (s : ℕ) (p : Chars) (ps : List Chars) → join s ([] ∷ p ∷ ps) ≡ s ∷ join s (p ∷ ps)
unfolding join
join-nil s p ps = refl

join_one : (s : ℕ) → join s ([] ∷ []) ≡ []
unfolding join
join_one s = refl

-- Joining the pieces of a text gives back the text.
pub join-split : (s : ℕ) (cs : Chars) → join s (split s cs) ≡ cs
unfolding split
join-split s [] = join_one s
join-split s (c ∷ cs) =
    let (p, ps, q) = split-cons s cs in
    let rest : join s (p ∷ ps) ≡ cs = rw (← q) (join-split s cs) in
    elim (Bool-cases (c == s)) [
      | inl e ↦ rw (e, q, join-nil s p ps, rest) (ap (λ a. a ∷ cs) (sym (==→eq c s e)))
      | inr e ↦ rw (e, q, join-cons_first s c p ps, rest) refl
    ]
