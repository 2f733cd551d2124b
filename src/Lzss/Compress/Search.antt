-- ===== src/Lzss/Compress/Search.antt =====
-- The search for the longest match gives a match: the bytes that it covers can be copied.
use wispy_vm.Prelude.{
  ℕ, zero, suc, ◌+◌, ◌-◌, ◌*◌, ◌≤◌, ◌<◌, ◌≡◌, refl, sym, ap, ◌∙◌, subst, true, Option, none, some,
  List, arith, length, length-append, get_or, ltb, Bool-cases, inl, inr, ltb→lt, ==→eq,
}
use wispy_vm.Lzss.{max_length}
use wispy_vm.Lzss.RingBuffer.{index}
use wispy_vm.Lzss.Encoding.{Copies, Copies-suc}
use wispy_vm.Lzss.Compress.{
  Compressor, same_byte, later_max, peek, agrees, match_loop, search_from, search_window,
  longest_match,
}
use wispy_vm.Lzss.Compress.View.{View, look_back}
use wispy_vm.Lzss.Compress.Peek.{Peeked, peek-Peeked}

module _ (w : ℕ) (hist todo : List ℕ) where
  -- The first `m` bytes to encode are read ahead, and are copies at the distance `n`.
  pub record Matched (pending : Option ℕ) (least n m : ℕ) (s : Compressor) : Type 0 where
    pub view : View w s hist todo
    pub copies : Copies n m todo hist
    pub reached : m ≤ s.ahead
    pub grown : least ≤ s.ahead
    pub short : m ≤ max_length
    pub same : s.pending ≡ pending

  -- A round of the loop keeps what was matched, and a byte that agrees is one more.
  agrees-Matched :
      (n m : ℕ) (s : Compressor) {pending : Option ℕ} {least : ℕ}
      → n < w
      → m < max_length
      → Matched pending least n m s
      → let (same, s') = agrees (w + max_length) s n m in
        Matched pending least n m s' × (same ≡ true → Matched pending least n (suc m) s')
  unfolding agrees
  agrees-Matched n m s {pending} {least} hn hm v =
      go (peek (w + max_length) s m) (peek-Peeked w s hist todo m v.view v.reached hm)
    where
      go :
          (out : Option ℕ × Compressor)
          → Peeked w s hist todo m out
          → let (x, s') = out in
            Matched pending least n m s'
            × (same_byte x
                    (index (w + max_length) s'.buffer (2 * (w + max_length) - s'.ahead - 1 - n + m))
                  ≡ true
                → Matched pending least n (suc m) s')
      go (x, s') p = (kept, λ e. more x e p.found)
        where
          reached : m ≤ s'.ahead
          reached = omega (arith, p.grown, v.reached)

          kept : Matched pending least n m s'
          kept = record {
            view = p.view;
            copies = v.copies;
            reached = reached;
            grown = omega (arith, p.grown, v.grown);
            short = v.short;
            same = p.same ∙ v.same;
          }

          fits : m < s'.ahead → m < length todo
          fits h =
              omega
                (arith, p.view.ahead, ap length p.view.split, length-append p.view.look s'.iterator)

          more :
              (x : Option ℕ)
              → same_byte x
                  (index (w + max_length) s'.buffer (2 * (w + max_length) - s'.ahead - 1 - n + m))
                ≡ true
              → ((y : ℕ) → x ≡ some y → (m < s'.ahead) × (y ≡ get_or todo m 0))
              → Matched pending least n (suc m) s'
          more none e found = cc
          more (some y) e found = record {
            view = p.view;
            copies =
                Copies-suc n m todo hist (fits (found y refl).0) v.copies
                  (sym (found y refl).1 ∙ ==→eq y _ e ∙ look_back w p.view n m hn reached);
            reached = (found y refl).0;
            grown = omega (arith, p.grown, v.grown);
            short = hm;
            same = p.same ∙ v.same;
          }

  match_loop-Matched :
      (fuel n m : ℕ) (s : Compressor) {pending : Option ℕ} {least : ℕ}
      → n < w
      → Matched pending least n m s
      → let (m', s') = match_loop (w + max_length) fuel s n m in Matched pending least n m' s'
  unfolding match_loop
  match_loop-Matched zero n m s hn v = v
  match_loop-Matched (suc fuel) n m s hn v = elim (Bool-cases (ltb m max_length)) [
    | inr full ↦ rw full v
    | inl room ↦
        let (kept, more) = agrees-Matched n m s hn (ltb→lt m max_length room) v in
        elim (Bool-cases (agrees (w + max_length) s n m).0) [
          | inl e ↦ rw (room, e) (match_loop-Matched fuel n (suc m) _ hn (more e))
          | inr e ↦ rw (room, e) kept
        ]
  ]

  Matched-relax :
      {n m least : ℕ} {s : Compressor} {pending : Option ℕ}
      → Matched pending least n m s
      → Matched pending 0 n m s
  Matched-relax v = record {
    view = v.view;
    copies = v.copies;
    reached = v.reached;
    grown = omega arith;
    short = v.short;
    same = v.same;
  }

  -- The best match so far holds after the search at a further offset, which only reads ahead.
  later_max-Matched :
      {n m i j : ℕ} {s s' : Compressor} {pending : Option ℕ}
      → n < w
      → i < w
      → Matched pending 0 n m s
      → Matched pending s.ahead i j s'
      → let (n', m') = later_max (n, m) (i, j) in (n' < w) × Matched pending 0 n' m' s'
  later_max-Matched {n} {m} {i} {j} {s} {s'} hn hi best new = elim (Bool-cases (ltb j m)) [
    | inl e ↦ rw e (
      hn,
      record {
        view = new.view;
        copies = best.copies;
        reached = omega (arith, best.reached, new.grown);
        grown = omega arith;
        short = best.short;
        same = new.same;
      },
    )
    | inr e ↦ rw e (
      hi,
      record {
        view = new.view;
        copies = new.copies;
        reached = new.reached;
        grown = omega arith;
        short = new.short;
        same = new.same;
      },
    )
  ]

  -- The search at one offset, from the beginning.
  offset-Matched :
      (i : ℕ) (s : Compressor) {pending : Option ℕ}
      → i < w
      → View w s hist todo
      → s.pending ≡ pending
      → let (j, s') = match_loop (w + max_length) (max_length + 1) s i 0 in
        Matched pending s.ahead i j s'
  offset-Matched i s hi v e = match_loop-Matched (max_length + 1) i 0 s hi (record {
    view = v;
    copies = tt;
    reached = omega arith;
    grown = omega arith;
    short = omega arith;
    same = e;
  })

  search_from-Matched :
      (i n m : ℕ) (s : Compressor) {pending : Option ℕ}
      → i ≤ w
      → n < w
      → Matched pending 0 n m s
      → let ((n', m'), s') = search_from (w + max_length) i (n, m) s in
        (n' < w) × Matched pending 0 n' m' s'
  unfolding search_from
  search_from-Matched zero n m s hi hn v = (hn, v)
  search_from-Matched (suc i) n m s hi hn v =
      let (hn', v') = later_max-Matched hn hi v (offset-Matched i s hi v.view v.same) in
      search_from-Matched i _ _ _ (omega arith) hn' v'

  search_window-Matched :
      (k : ℕ) (s : Compressor)
      → 0 < k
      → k ≤ w
      → View w s hist todo
      → let ((n, m), s') = search_window (w + max_length) k s in
        (n < w) × Matched s.pending 0 n m s'
  unfolding search_window
  search_window-Matched zero s hk hw v = absurd (omega arith)
  search_window-Matched (suc i) s hk hw v =
      let first = offset-Matched i s {pending = s.pending} hw v refl in
      search_from-Matched i i _ _ (omega arith) hw (Matched-relax first)

  -- The longest match that the search finds is a match, within the window.
  pub longest_match-Matched :
      (s : Compressor)
      → 0 < w
      → View w s hist todo
      → let ((n, m), s') = longest_match (w + max_length) s in (n < w) × Matched s.pending 0 n m s'
  unfolding longest_match
  longest_match-Matched s hw v =
      subst
        (λ k.
          let ((n, m), s') = search_window (w + max_length) k s in
          (n < w) × Matched s.pending 0 n m s')
        {x = w} (omega arith) (search_window-Matched w s hw (omega arith) v)

-- With fuel for the lengths up to `MAX_LENGTH` and one round more, the `while` loop ends: any other
-- fuel that is enough gives the same.
pub match_loop_fuel :
    (b fuel more i j : ℕ) (s : Compressor)
    → max_length < j + fuel
    → max_length < j + more
    → match_loop b fuel s i j ≡ match_loop b more s i j
unfolding match_loop
match_loop_fuel b zero zero i j s h h' = refl
match_loop_fuel b zero (suc more) i j s h h' = ground arith
match_loop_fuel b (suc fuel) zero i j s h h' = ground arith
match_loop_fuel b (suc fuel) (suc more) i j s h h' =
    rw (match_loop_fuel b fuel more i (suc j) (agrees b s i j).1 (omega arith) (omega arith))
