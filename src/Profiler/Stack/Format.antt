-- ===== src/Profiler/Stack/Format.antt =====
-- The text of stacks, printed and read back.
use wispy_vm.Prelude.{
  ℕ, ◌≡◌, refl, sym, ◌≢◌, ap, ◌∙◌, Bool, true, false, none, some, List, [], ◌∷◌, ◌++◌, map, All,
  append-nil,
}
use wispy_vm.Profiler.{Chars, ok, frame_separator}
use wispy_vm.Profiler.Stack.{
  Frame, Stack, parse_frame, parse_stack, unwrap_or, display_frames, show_stack,
}
use wispy_vm.Profiler.Text.Split.{Avoids, Avoids-append, join, split-join, join-split, split-cons}

-- A frame that has a name has one that is not empty and holds no separator.
abbrev pub IsNamed : Frame → Type 0
IsNamed none = Unit {0}
IsNamed (some name) = (name ≢ []) × Avoids frame_separator name

-- The stacks that their text determines.
abbrev pub IsPrintable : Stack → Type 0
IsPrintable s = (s.frames ≢ []) × All IsNamed s.frames

display_frames-join :
    (f : Frame) (fs : List Frame)
    → display_frames true [] (f ∷ fs) ≡ join frame_separator (map (unwrap_or []) (f ∷ fs))
unfolding display_frames join
display_frames-join f [] = append-nil (unwrap_or [] f)
display_frames-join f (g ∷ fs) =
    ap (λ r. unwrap_or [] f ++ (frame_separator ∷ r)) (display_frames-join g fs)

parse_frame-unwrap_or : (f : Frame) → IsNamed f → parse_frame (unwrap_or [] f) ≡ f
unfolding parse_frame
parse_frame-unwrap_or none h = refl
parse_frame-unwrap_or (some []) h = absurd (h.0 refl)
parse_frame-unwrap_or (some (c ∷ cs)) h = refl

pub unwrap_or-parse_frame : (cs : Chars) → unwrap_or [] (parse_frame cs) ≡ cs
unfolding parse_frame
unwrap_or-parse_frame [] = refl
unwrap_or-parse_frame (c ∷ cs) = refl

map-parse_frame : (fs : List Frame) → All IsNamed fs → map parse_frame (map (unwrap_or []) fs) ≡ fs
map-parse_frame [] h = refl
map-parse_frame (f ∷ fs) h = cc (parse_frame-unwrap_or f h.0, map-parse_frame fs h.1)

map-unwrap_or : (ps : List Chars) → map (unwrap_or []) (map parse_frame ps) ≡ ps
map-unwrap_or [] = refl
map-unwrap_or (p ∷ ps) = cc (unwrap_or-parse_frame p, map-unwrap_or ps)

unwrap_or-Avoids : (f : Frame) → IsNamed f → Avoids frame_separator (unwrap_or [] f)
unwrap_or-Avoids none h = tt
unwrap_or-Avoids (some name) h = h.1

All-unwrap_or :
    (fs : List Frame) → All IsNamed fs → All (Avoids frame_separator) (map (unwrap_or []) fs)
All-unwrap_or [] h = tt
All-unwrap_or (f ∷ fs) h = (unwrap_or-Avoids f h.0, All-unwrap_or fs h.1)

parse_stack-frames :
    (fs : List Frame)
    → IsPrintable (record { frames = fs })
    → parse_stack (show_stack (record { frames = fs })) ≡ ok (record { frames = fs })
unfolding parse_stack show_stack
parse_stack-frames [] h = absurd (h.0 refl)
parse_stack-frames (f ∷ fs) h =
    rw
      (
        display_frames-join f fs,
        split-join frame_separator (unwrap_or [] f) (map (unwrap_or []) fs)
            (All-unwrap_or (f ∷ fs) h.1),
      )
      (ap (λ r. ok (record { frames = r })) (map-parse_frame (f ∷ fs) h.1))

-- The text of a stack of frames whose names are not empty and hold no separator is read back.
pub parse_stack-show_stack : (s : Stack) → IsPrintable s → parse_stack (show_stack s) ≡ ok s
parse_stack-show_stack s h = parse_stack-frames s.frames h

show_stack-pieces :
    (p : Chars) (ps : List Chars)
    → show_stack (record { frames = map parse_frame (p ∷ ps) }) ≡ join frame_separator (p ∷ ps)
unfolding show_stack
show_stack-pieces p ps =
    display_frames-join (parse_frame p) (map parse_frame ps)
    ∙ ap (join frame_separator) (map-unwrap_or (p ∷ ps))

-- Every text is read as a stack, and that stack is printed as the text it was read from.
pub show_stack-parse_stack :
    (text : Chars) → (s : Stack) × (parse_stack text ≡ ok s) × (show_stack s ≡ text)
unfolding parse_stack
show_stack-parse_stack text =
    let (p, ps, q) = split-cons frame_separator text in
    (
      record { frames = map parse_frame (p ∷ ps) },
      rw q refl,
      show_stack-pieces p ps ∙ ap (join frame_separator) (sym q) ∙ join-split frame_separator text,
    )

-- The text of a stack holds no character that its names do not hold, but the separator.
pub display_frames-Avoids :
    (c : ℕ) (first : Bool) (fs : List Frame)
    → c ≢ frame_separator
    → All (λ f. Avoids c (unwrap_or [] f)) fs
    → Avoids c (display_frames first [] fs)
unfolding display_frames
display_frames-Avoids c first [] n h = tt
display_frames-Avoids c true (f ∷ fs) n h =
    Avoids-append c (unwrap_or [] f) _ h.0 (display_frames-Avoids c false fs n h.1)
display_frames-Avoids c false (f ∷ fs) n h = (
  λ e. n (sym e),
  Avoids-append c (unwrap_or [] f) _ h.0 (display_frames-Avoids c false fs n h.1),
)
