-- ===== src/Profiler/Stack.antt =====
-- profiler/src/record/stack.rs: the frames of a call stack, and their text.
pub mod Format
pub mod Collapse
pub mod Equality
use wispy_vm.Prelude.{
  ℕ, Bool, true, false, ◌&&◌, Option, none, some, List, [], ◌∷◌, ◌++◌, map, reverse, ◌==◌,
  if◌then◌else◌,
}
use wispy_vm.Profiler.{Chars, Result, ok, frame_separator}
use wispy_vm.Profiler.Text.{split}

-- A frame without a name is `none`.
abbrev pub Frame : Type 0
Frame = Option Chars

pub record Stack : Type 0 where
  pub frames : List Frame

unfoldable pub reverse_frames : Stack → Stack
reverse_frames s = record { frames = reverse s.frames }

-- The derived equality of frames.
unfoldable pub same_chars : Chars → Chars → Bool
same_chars [] [] = true
same_chars [] (d ∷ ds) = false
same_chars (c ∷ cs) [] = false
same_chars (c ∷ cs) (d ∷ ds) = (c == d) && same_chars cs ds

unfoldable pub same_frame : Frame → Frame → Bool
unfolding same_chars
same_frame none none = true
same_frame none (some d) = false
same_frame (some c) none = false
same_frame (some c) (some d) = same_chars c d

unfoldable pub same_frames : List Frame → List Frame → Bool
unfolding same_frame
same_frames [] [] = true
same_frames [] (g ∷ gs) = false
same_frames (f ∷ fs) [] = false
same_frames (f ∷ fs) (g ∷ gs) = same_frame f g && same_frames fs gs

-- The test `frames.last() == Some(&frame)`.
unfoldable pub ends_with : Frame → List Frame → Bool
unfolding same_frame
ends_with f [] = false
ends_with f (g ∷ []) = same_frame g f
ends_with f (g ∷ h ∷ gs) = ends_with f (h ∷ gs)

-- The loop of `collapse_frames`, over the frames that are left; the first argument is what it kept.
unfoldable pub collapse_loop : List Frame → List Frame → List Frame
unfolding ends_with
collapse_loop kept [] = kept
collapse_loop kept (f ∷ fs) = collapse_loop (if ends_with f kept then kept else kept ++ f ∷ []) fs

unfoldable pub collapse_frames : Stack → Stack
unfolding collapse_loop
collapse_frames s = record { frames = collapse_loop [] s.frames }

-- A piece of the text of a stack; the empty one is a frame without a name.
unfoldable pub parse_frame : Chars → Frame
parse_frame [] = none
parse_frame (c ∷ cs) = some (c ∷ cs)

-- `FromStr for Stack`
unfoldable pub parse_stack : Chars → Result Stack
unfolding parse_frame split
parse_stack text = ok (record { frames = map parse_frame (split frame_separator text) })

-- `Option::unwrap_or`
abbrev pub unwrap_or : Chars → Frame → Chars
unwrap_or local_name none = local_name
unwrap_or local_name (some name) = name

-- The loop of `Display for StackDisplay`.
unfoldable pub display_frames : Bool → Chars → List Frame → Chars
display_frames first local_name [] = []
display_frames first local_name (f ∷ fs) =
    (if first then [] else frame_separator ∷ [])
    ++ (unwrap_or local_name f ++ display_frames false local_name fs)

unfoldable pub display_local : Chars → Stack → Chars
unfolding display_frames
display_local local_name s = display_frames true local_name s.frames

-- `Display for Stack`
unfoldable pub show_stack : Stack → Chars
unfolding display_local
show_stack s = display_local [] s
