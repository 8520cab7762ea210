-- ===== src/Metric/Tool.antt =====
-- src/ssimulacra2_main.cc: the command line. The decoder of image files, jxl::SetFromFile, is a
-- parameter; the messages on stderr are named by the outcome.
pub mod Outcomes
use ssimulacra2_vulcan.Common.{
  ℕ, Bool, true, false, not, ◌&&◌, ◌||◌, Option, none, some, List, [], ◌∷◌, length, get_or, ltb,
  ◌==◌, if◌then◌else◌, ◌>>=◌,
}
use ssimulacra2_vulcan.Arith.{Arith, Doubles, decimal, smaller}
use ssimulacra2_vulcan.Image.{ImageBundle, has_alpha}
use ssimulacra2_vulcan.Metric.Score.{score}
use ssimulacra2_vulcan.Metric.Compute.{Library, compute_ssimulacra2, compute_on_gray}

-- A file name, by its bytes.
abbrev pub FilePath : Type 0
FilePath = List ℕ

-- How a run ends: with a message and the exit code 1, with a score and the exit code 0, or aborted
-- by a check of the library.
pub data Outcome (D : Type 0) : Type 0 where
  usage cannot_load_original too_small cannot_load_distorted size_mismatch aborted : Outcome D
  printed : D → Outcome D

-- An aborted run returns no code.
unfoldable pub exit_code : {D : Type 0} → Outcome D → Option ℕ
exit_code (printed d) = some 0
exit_code aborted = none
exit_code usage = some 1
exit_code cannot_load_original = some 1
exit_code too_small = some 1
exit_code cannot_load_distorted = some 1
exit_code size_mismatch = some 1

-- CodecInOut: the size that its metadata has, which need not be that of a frame, and the duration of each
-- frame with the frame.
pub record CodecInOut (F : Type 0) : Type 0 where
  pub xsize : ℕ
  pub ysize : ℕ
  pub frames : List (ℕ × ImageBundle F)

-- Main: the frame at LastStillFrame, the first one with a duration, or the last one. It is undefined
-- where there are no frames.
unfoldable pub main_frame : {F : Type 0} → List (ℕ × ImageBundle F) → Option (ImageBundle F)
main_frame [] = none
main_frame ((duration, b) ∷ []) = some b
main_frame ((duration, b) ∷ f ∷ fs) = if ltb 0 duration then some b else main_frame (f ∷ fs)

unfoldable pub same_size : {F : Type 0} → CodecInOut F → CodecInOut F → Bool
same_size a b = a.xsize == b.xsize && a.ysize == b.ysize

module _ {F D : Type 0} ⦃s : Arith F⦄ ⦃d : Arith D⦄ (c : Doubles F D) (lib : Library F) where
  -- Against a dark and a bright background if the original has alpha: the worse of both scores.
  unfoldable pub score_of : ImageBundle F → ImageBundle F → Option D
  score_of orig dist =
      if not (has_alpha orig)
      then (do scales ← compute_on_gray c lib orig dist; some (score c scales))
      else (do
        dark ← compute_ssimulacra2 c lib orig dist (decimal 1 1)
        bright ← compute_ssimulacra2 c lib orig dist (decimal 9 1)
        some (smaller (score c dark) (score c bright)))

  -- The end of main, on two images that are loaded.
  unfoldable pub compare_images : CodecInOut F → CodecInOut F → Outcome D
  unfolding same_size
  compare_images io1 io2 =
      if not (same_size io1 io2)
      then size_mismatch
      else elim (do
        orig ← main_frame io1.frames
        dist ← main_frame io2.frames
        score_of orig dist) [ none ↦ aborted | some x ↦ printed x ]

  unfoldable pub compare_with_file : CodecInOut F → Option (CodecInOut F) → Outcome D
  compare_with_file io1 none = cannot_load_distorted
  compare_with_file io1 (some io2) = compare_images io1 io2

  -- The distorted image is loaded only if the original is large enough.
  unfoldable pub compare_files : Option (CodecInOut F) → Option (CodecInOut F) → Outcome D
  compare_files none second = cannot_load_original
  compare_files (some io1) second =
      if ltb io1.xsize 8 || ltb io1.ysize 8 then too_small else compare_with_file io1 second

  -- `argv` holds the program's name and its arguments.
  unfoldable pub main : (FilePath → Option (CodecInOut F)) → List FilePath → Outcome D
  unfolding compare_files compare_with_file compare_images
  main set_from_file argv =
      if not (length argv == 3)
      then usage
      else compare_files (set_from_file (get_or argv 1 List.[]))
          (set_from_file (get_or argv 2 List.[]))
