-- ===== src/Metric/Tool/Outcomes.antt =====
-- How runs of the tool end.
use ssimulacra2_vulcan.Common.{
  ℕ, ◌≤◌, ◌≡◌, ◌↔◌, refl, true, Option, none, some, List, [], ◌∷◌, length, get_or, ◌==◌, arith,
  Bool-cases, inl, inr, ==_iff, ◌>>=◌, bind-eq-some,
}
use ssimulacra2_vulcan.Arith.{Arith, Doubles, decimal, smaller}
use ssimulacra2_vulcan.Image.{ImageBundle, has_alpha}
use ssimulacra2_vulcan.Metric.Score.{score}
use ssimulacra2_vulcan.Metric.Compute.{Library, compute_on_gray, to_linear}
use ssimulacra2_vulcan.Metric.Compute.Sizes.{HasSize, LibraryRules}
use ssimulacra2_vulcan.Metric.Compute.Total.{compute_ssimulacra2_total}
use ssimulacra2_vulcan.Metric.Tool.{
  FilePath, CodecInOut, main_frame, Outcome, usage, printed, exit_code, same_size, score_of,
  compare_images, compare_files, compare_with_file, main, aborted, cannot_load_original, too_small,
  cannot_load_distorted, size_mismatch,
}

exit_code-zero : {D : Type 0} (o : Outcome D) → exit_code o ≡ some 0 → (x : D) × (o ≡ printed x)
unfolding exit_code
exit_code-zero (printed x) e = (x, refl)
exit_code-zero aborted e = cc
exit_code-zero usage e = absurd (ground arith)
exit_code-zero cannot_load_original e = absurd (ground arith)
exit_code-zero too_small e = absurd (ground arith)
exit_code-zero cannot_load_distorted e = absurd (ground arith)
exit_code-zero size_mismatch e = absurd (ground arith)

module _ {F D : Type 0} ⦃s : Arith F⦄ ⦃d : Arith D⦄ (c : Doubles F D) (lib : Library F) where
  -- What a run that prints a score has found.
  pub record Compared (first second : Option (CodecInOut F)) (x : D) : Type 0 where
    pub io1 : CodecInOut F
    pub io2 : CodecInOut F
    pub loads_first : first ≡ some io1
    pub loads_second : second ≡ some io2
    pub wide : 8 ≤ io1.xsize
    pub high : 8 ≤ io1.ysize
    pub same_width : io1.xsize ≡ io2.xsize
    pub same_height : io1.ysize ≡ io2.ysize
    pub orig : ImageBundle F
    pub dist : ImageBundle F
    pub main_orig : main_frame io1.frames ≡ some orig
    pub main_dist : main_frame io2.frames ≡ some dist
    pub scores : score_of c lib orig dist ≡ some x

  compare_images-printed :
      (io1 io2 : CodecInOut F) (x : D)
      → compare_images c lib io1 io2 ≡ printed x
      → (same_size io1 io2 ≡ true)
        × (orig : ImageBundle F) × (dist : ImageBundle F) × (main_frame io1.frames ≡ some orig)
        × (main_frame io2.frames ≡ some dist)
        × (score_of c lib orig dist ≡ some x)
  unfolding compare_images
  compare_images-printed io1 io2 x e =
      let (same, run) : (same_size io1 io2 ≡ true)
          × ((do
            orig ← main_frame io1.frames
            dist ← main_frame io2.frames
            score_of c lib orig dist)
              ≡ some x) =
        ground arith in
      let (orig, eo, rest) = bind-eq-some _ _ run in
      let (dist, ed, scores) = bind-eq-some _ _ rest in (same, orig, dist, eo, ed, scores)

  compare_files-Compared :
      (first second : Option (CodecInOut F)) (x : D)
      → compare_files c lib first second ≡ printed x
      → Compared first second x
  unfolding compare_files compare_with_file
  compare_files-Compared none second x e = cc
  compare_files-Compared (some io1) none x e = ground arith
  compare_files-Compared (some io1) (some io2) x e =
      let big : (8 ≤ io1.xsize) × (8 ≤ io1.ysize) × (compare_images c lib io1 io2 ≡ printed x) =
        ground arith in
      let (same, orig, dist, eo, ed, scores) = compare_images-printed io1 io2 x big.2 in
      let sizes : (io1.xsize ≡ io2.xsize) × (io1.ysize ≡ io2.ysize) =
        unfold same_size in ground arith in
      record {
        io1 = io1;
        io2 = io2;
        loads_first = refl;
        loads_second = refl;
        orig = orig;
        dist = dist;
        main_orig = eo;
        main_dist = ed;
        wide = big.0;
        high = big.1;
        same_width = sizes.0;
        same_height = sizes.1;
        scores = scores;
      }

  Compared-compare_files :
      (first second : Option (CodecInOut F)) (x : D)
      → Compared first second x
      → compare_files c lib first second ≡ printed x
  unfolding compare_files compare_with_file compare_images same_size
  Compared-compare_files first second x r = ground arith

  -- A run on two file names prints x exactly if both files load, the original has at least 8 rows and
  -- columns, both have one size, each by the size in its metadata, and x is the score of their main
  -- frames.
  pub main-printed :
      (set_from_file : FilePath → Option (CodecInOut F)) (program original distorted : FilePath)
      (x : D)
      → (main c lib set_from_file (program ∷ original ∷ distorted ∷ []) ≡ printed x)
        ↔ Compared (set_from_file original) (set_from_file distorted) x
  unfolding main
  main-printed set_from_file program original distorted x = (
    compare_files-Compared (set_from_file original) (set_from_file distorted) x,
    Compared-compare_files (set_from_file original) (set_from_file distorted) x,
  )

  -- The exit code is 0 exactly if there are two file names, both files load, with one size of at least 8 rows and
  -- columns in their metadata, and the score of their main frames is computed.
  pub main_succeeds :
      (set_from_file : FilePath → Option (CodecInOut F)) (argv : List FilePath)
      → (exit_code (main c lib set_from_file argv) ≡ some 0) ↔ (
          (x : D) × (length argv ≡ 3)
          × Compared (set_from_file (get_or argv 1 [])) (set_from_file (get_or argv 2 [])) x)
  unfolding main
  main_succeeds set_from_file argv = elim (Bool-cases (length argv == 3)) [
    | inr other ↦
        rw other (λ e. absurd (unfold exit_code in ground arith), λ (x, l, r). ground arith)
    | inl three ↦ rw three (
      λ e.
          let first = set_from_file (get_or argv 1 []) in
          let second = set_from_file (get_or argv 2 []) in
          let (x, p) = exit_code-zero (compare_files c lib first second) e in
          (x, (==_iff _ _).0 three, compare_files-Compared first second x p),
      λ (x, l, r). rw (Compared-compare_files _ _ x r) (unfold exit_code in refl),
    )
  ]

module _ {F D : Type 0} ⦃s : Arith F⦄ ⦃d : Arith D⦄ (c : Doubles F D) (lib : Library F)
    (rules : LibraryRules lib) where
  -- Both images can be converted to linear sRGB.
  abbrev pub Converts : ImageBundle F → Type 0
  Converts b = (bg : F) → (o : ImageBundle F) × (to_linear lib b bg ≡ some o)

  score_of-some :
      (orig dist : ImageBundle F) (xs ys : ℕ)
      → HasSize orig.color xs ys
      → HasSize dist.color xs ys
      → orig.metadata_gray ≡ orig.is_gray
      → dist.metadata_gray ≡ dist.is_gray
      → Converts orig
      → Converts dist
      → (x : D) × (score_of c lib orig dist ≡ some x)
  unfolding score_of compute_on_gray
  score_of-some orig dist xs ys ho hd go gd co cd =
      let total : (bg : F) → _ = λ bg.
        compute_ssimulacra2_total c lib rules orig dist (co bg).0 (cd bg).0 bg xs ys ho hd go gd
          (co bg).1 (cd bg).1 in
      elim (Bool-cases (has_alpha orig)) [
        | inl alpha ↦
            let (dark, e, _) = total (decimal 1 1) in
            let (bright, e', _) = total (decimal 9 1) in
            (smaller (score c dark) (score c bright), rw (alpha, e, e'))
        | inr opaque ↦ let (scales, e, _) = total (decimal 5 1) in (score c scales, rw (opaque, e))
      ]

  -- Two files load, of one size in their metadata, with at least 8 rows and columns. Let their main
  -- frames have one size, which need not be that one, each with a color encoding that is gray exactly if
  -- that of its metadata is, and let them be convertible to linear sRGB: then the run prints a score.
  pub main_total :
      (set_from_file : FilePath → Option (CodecInOut F)) (program original distorted : FilePath)
      (io1 io2 : CodecInOut F) (orig dist : ImageBundle F) (xs ys : ℕ)
      → set_from_file original ≡ some io1
      → set_from_file distorted ≡ some io2
      → 8 ≤ io1.xsize
      → 8 ≤ io1.ysize
      → io1.xsize ≡ io2.xsize
      → io1.ysize ≡ io2.ysize
      → main_frame io1.frames ≡ some orig
      → main_frame io2.frames ≡ some dist
      → HasSize orig.color xs ys
      → HasSize dist.color xs ys
      → orig.metadata_gray ≡ orig.is_gray
      → dist.metadata_gray ≡ dist.is_gray
      → Converts orig
      → Converts dist
      → (x : D) × (main c lib set_from_file (program ∷ original ∷ distorted ∷ []) ≡ printed x)
  main_total load program original distorted io1 io2 orig dist xs ys e1 e2 hx hy sx sy eo ed ho hd
        go gd co cd =
      let (x, e) = score_of-some orig dist xs ys ho hd go gd co cd in
      (
        x,
        (main-printed c lib load program original distorted x).1 (record {
          io1 = io1;
          io2 = io2;
          loads_first = e1;
          loads_second = e2;
          wide = hx;
          high = hy;
          same_width = sx;
          same_height = sy;
          orig = orig;
          dist = dist;
          main_orig = eo;
          main_dist = ed;
          scores = e;
        }),
      )
