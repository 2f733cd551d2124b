-- ===== src/Profiler/Stack/Collapse.antt =====
-- What collapsing frames keeps of them.
use wispy_vm.Prelude.{
  ℕ, zero, suc, ◌≡◌, refl, sym, ◌≢◌, ap, ◌∙◌, List, [], ◌∷◌, ◌++◌, map, append_assoc, replicate,
  if◌then◌else◌, Bool-cases, inl, inr,
}
use wispy_vm.Profiler.Stack.Equality.{same_frame→eq, same_frame→ne}
use wispy_vm.Profiler.Stack.{Frame, Stack, same_frame, ends_with, collapse_loop, collapse_frames}

ends_with-append : (f k : Frame) (ks : List Frame) → ends_with f (ks ++ k ∷ []) ≡ same_frame k f
unfolding ends_with
ends_with-append f k [] = refl
ends_with-append f k (g ∷ []) = refl
ends_with-append f k (g ∷ h ∷ ks) = ends_with-append f k (h ∷ ks)

-- The frames that collapsing leaves of `k` and the frames behind it.
squash : Frame → List Frame → List Frame
squash k [] = k ∷ []
squash k (f ∷ fs) = if same_frame k f then squash k fs else k ∷ squash f fs

collapse_loop-squash :
    (ks : List Frame) (k : Frame) (fs : List Frame)
    → collapse_loop (ks ++ k ∷ []) fs ≡ ks ++ squash k fs
unfolding collapse_loop squash
collapse_loop-squash ks k [] = refl
collapse_loop-squash ks k (f ∷ fs) = elim (Bool-cases (same_frame k f)) [
  | inl e ↦ rw (ends_with-append f k ks, e) (collapse_loop-squash ks k fs)
  | inr e ↦
      rw (ends_with-append f k ks, e)
        (collapse_loop-squash (ks ++ k ∷ []) f fs ∙ append_assoc ks (k ∷ []) (squash f fs))
]

-- A run is a frame with the number of its repetitions behind its first occurrence.
abbrev pub Run : Type 0
Run = Frame × ℕ

abbrev pub expand : List Run → List Frame
expand [] = []
expand ((f, n) ∷ runs) = replicate (suc n) f ++ expand runs

-- Neighbouring runs are of different frames.
abbrev pub IsMaximal : List Run → Type 0
IsMaximal [] = Unit {0}
IsMaximal (r ∷ []) = Unit {0}
IsMaximal (r ∷ q ∷ runs) = (r.0 ≢ q.0) × IsMaximal (q ∷ runs)

abbrev pub run_frame : Run → Frame
run_frame r = r.0

replicate-next :
    (n : ℕ) (f : Frame) (fs : List Frame) → replicate (suc n) f ++ fs ≡ replicate n f ++ (f ∷ fs)
replicate-next zero f fs = refl
replicate-next (suc n) f fs = ap (λ r. f ∷ r) (replicate-next n f fs)

-- The runs of `k`, seen `n` times before, and of the frames behind it.
squash-runs :
    (k : Frame) (n : ℕ) (fs : List Frame)
    → (m : ℕ) × (runs : List Run) × IsMaximal ((k, m) ∷ runs)
      × (expand ((k, m) ∷ runs) ≡ replicate (suc n) k ++ fs)
      × (map run_frame ((k, m) ∷ runs) ≡ squash k fs)
unfolding squash
squash-runs k n [] = (n, [], tt, refl, refl)
squash-runs k n (f ∷ fs) = elim (Bool-cases (same_frame k f)) [
  | inl e ↦
      let (m, runs, maximal, whole, heads) = squash-runs k (suc n) fs in
      (
        m,
        runs,
        maximal,
        whole
            ∙ replicate-next (suc n) k fs
            ∙ ap (λ g. replicate (suc n) k ++ (g ∷ fs)) (same_frame→eq k f e),
        rw e heads,
      )
  | inr e ↦
      let (m, runs, maximal, whole, heads) = squash-runs f 0 fs in
      (
        n,
        (f, m) ∷ runs,
        (same_frame→ne k f e, maximal),
        ap (λ r. replicate (suc n) k ++ r) whole,
        rw e (ap (λ r. k ∷ r) heads),
      )
]

frames-runs :
    (fs : List Frame)
    → (runs : List Run) × IsMaximal runs
      × (expand runs ≡ fs)
      × (map run_frame runs ≡ collapse_loop [] fs)
unfolding collapse_loop
frames-runs [] = ([], tt, refl, refl)
frames-runs (f ∷ fs) =
    let (m, runs, maximal, whole, heads) = squash-runs f 0 fs in
    ((f, m) ∷ runs, maximal, whole, heads ∙ sym (collapse_loop-squash [] f fs))

-- The frames of a stack fall into runs of equal frames, neighbouring runs of different ones, and
-- collapsing keeps one frame of each run.
pub collapse_frames-runs :
    (s : Stack)
    → (runs : List Run) × IsMaximal runs
      × (expand runs ≡ s.frames)
      × (map run_frame runs ≡ (collapse_frames s).frames)
unfolding collapse_frames
collapse_frames-runs s = frames-runs s.frames
