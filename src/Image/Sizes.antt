-- ===== src/Image/Sizes.antt =====
-- The sizes of images.
use ssimulacra2_vulcan.Common.{ℕ, ◌≤◌, ◌≡◌, some, arith}
use ssimulacra2_vulcan.Image.{Plane, Image3, shrink_plane_to, shrink_to}

module _ {A : Type 0} where
  -- A plane of the given size, that was allocated with another.
  pub record PlaneSized (p : Plane A) (xs ys oxs oys : ℕ) : Type 0 where
    pub x_size : p.xsize ≡ xs
    pub y_size : p.ysize ≡ ys
    pub x_orig : p.orig_xsize ≡ oxs
    pub y_orig : p.orig_ysize ≡ oys

  -- Three planes of one size, that were allocated with another.
  pub record Sized (i : Image3 A) (xs ys oxs oys : ℕ) : Type 0 where
    pub sized0 : PlaneSized i.plane0 xs ys oxs oys
    pub sized1 : PlaneSized i.plane1 xs ys oxs oys
    pub sized2 : PlaneSized i.plane2 xs ys oxs oys

  -- Shrinking a plane within the allocated size succeeds.
  pub shrink_plane_to-some :
      (p : Plane A) (xs ys oxs oys a b : ℕ)
      → PlaneSized p xs ys oxs oys
      → a ≤ oxs
      → b ≤ oys
      → (q : Plane A) × (shrink_plane_to p a b ≡ some q) × PlaneSized q a b oxs oys
  unfolding shrink_plane_to
  shrink_plane_to-some p xs ys oxs oys a b s ha hb =
      (record p { xsize = a; ysize = b }, ground arith, omega arith)

  -- Shrinking within the allocated size succeeds.
  pub shrink_to-some :
      (i : Image3 A) (xs ys oxs oys a b : ℕ)
      → Sized i xs ys oxs oys
      → a ≤ oxs
      → b ≤ oys
      → (j : Image3 A) × (shrink_to i a b ≡ some j) × Sized j a b oxs oys
  unfolding shrink_to
  shrink_to-some i xs ys oxs oys a b s ha hb = (
    record {
      plane0 = record (i.plane0) { xsize = a; ysize = b };
      plane1 = record (i.plane1) { xsize = a; ysize = b };
      plane2 = record (i.plane2) { xsize = a; ysize = b };
    },
    ground arith,
    omega arith,
  )
