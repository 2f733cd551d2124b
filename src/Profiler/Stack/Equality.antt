-- ===== src/Profiler/Stack/Equality.antt =====
-- The tests of equality decide it.
use wispy_vm.Prelude.{◌≡◌, refl, ◌≢◌, ap, true, false, none, some, List, [], ◌∷◌, eq→==, arith}
use wispy_vm.Profiler.{Chars}
use wispy_vm.Profiler.Stack.{Frame, Stack, same_chars, same_frame, same_frames}

same_chars→eq : (cs ds : Chars) → same_chars cs ds ≡ true → cs ≡ ds
unfolding same_chars
same_chars→eq [] [] e = refl
same_chars→eq [] (d ∷ ds) e = cc
same_chars→eq (c ∷ cs) [] e = cc
same_chars→eq (c ∷ cs) (d ∷ ds) e = ground (arith, same_chars→eq cs ds)

same_chars_refl : (cs : Chars) → same_chars cs cs ≡ true
unfolding same_chars
same_chars_refl [] = refl
same_chars_refl (c ∷ cs) = rw (eq→== c c refl) (same_chars_refl cs)

pub same_frame→eq : (f g : Frame) → same_frame f g ≡ true → f ≡ g
unfolding same_frame
same_frame→eq none none e = refl
same_frame→eq none (some d) e = cc
same_frame→eq (some c) none e = cc
same_frame→eq (some c) (some d) e = ap some (same_chars→eq c d e)

pub same_frame_refl : (f : Frame) → same_frame f f ≡ true
unfolding same_frame
same_frame_refl none = refl
same_frame_refl (some c) = same_chars_refl c

pub same_frame→ne : (f g : Frame) → same_frame f g ≡ false → f ≢ g
same_frame→ne f g e p = let same : same_frame f g ≡ true = rw (← p) (same_frame_refl f) in cc

frames→eq : (fs gs : List Frame) → same_frames fs gs ≡ true → fs ≡ gs
unfolding same_frames
frames→eq [] [] e = refl
frames→eq [] (g ∷ gs) e = cc
frames→eq (f ∷ fs) [] e = cc
frames→eq (f ∷ fs) (g ∷ gs) e = ground (arith, same_frame→eq f g, frames→eq fs gs)

frames_refl : (fs : List Frame) → same_frames fs fs ≡ true
unfolding same_frames
frames_refl [] = refl
frames_refl (f ∷ fs) = rw (same_frame_refl f) (frames_refl fs)

pub same_frames→eq : (s t : Stack) → same_frames s.frames t.frames ≡ true → s ≡ t
same_frames→eq s t e = ap (λ fs. record { frames = fs }) (frames→eq s.frames t.frames e)

pub same_frames→ne : (s t : Stack) → same_frames s.frames t.frames ≡ false → s ≢ t
same_frames→ne s t e p =
    let same : same_frames s.frames t.frames ≡ true = rw (← p) (frames_refl s.frames) in cc
