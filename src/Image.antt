-- ===== src/Image.antt =====
-- Images: src/lib/jxl/image.h (Plane, Image3) and the part of ImageBundle that the metric uses.
-- A plane is its size, the size it was allocated with, and its pixels by row and column; what stands
-- outside its size has no meaning. JXL_CHECK aborts the program: such an operation returns an Option.
pub mod Sizes
use ssimulacra2_vulcan.Common.{
  ℕ, zero, suc, Bool, true, false, ◌&&◌, Option, some, none, ltb, leb, not, List, [], ◌∷◌,
  get_elem?, ◌==◌, if◌then◌else◌, ◌>>=◌, ◌>>◌, guard,
}

pub record Plane (A : Type 0) : Type 0 where
  pub xsize : ℕ
  pub ysize : ℕ
  pub orig_xsize : ℕ
  pub orig_ysize : ℕ
  pub pixel : ℕ → ℕ → A

pub record Image3 (A : Type 0) : Type 0 where
  pub plane0 : Plane A
  pub plane1 : Plane A
  pub plane2 : Plane A

-- color_, extra_channels_ and whether c_current_ is gray; and of metadata_, the position of the first
-- alpha channel (what Find(kAlpha) points to), and whether its color encoding is gray.
pub record ImageBundle (A : Type 0) : Type 0 where
  pub color : Image3 A
  pub extra_channels : List (Plane A)
  pub is_gray : Bool
  pub alpha_index : Option ℕ
  pub metadata_gray : Bool

abbrev pub is_same : Bool → Bool → Bool
is_same true c = c
is_same false c = not c

module _ {A : Type 0} where
  -- A plane that is allocated for the size, with each of its pixels written.
  abbrev pub new_plane : ℕ → ℕ → (ℕ → ℕ → A) → Plane A
  new_plane xs ys f = record { xsize = xs; ysize = ys; orig_xsize = xs; orig_ysize = ys; pixel = f }

  -- for (y < ys) for (x < xs) row(y)[x] = f(y, x)
  abbrev pub write_pixels : Plane A → ℕ → ℕ → (ℕ → ℕ → A) → Plane A
  write_pixels p xs ys f = record p {
    pixel = λ y x. if ltb y ys && ltb x xs then f y x else p.pixel y x;
  }

  unfoldable pub shrink_plane_to : Plane A → ℕ → ℕ → Option (Plane A)
  shrink_plane_to p xs ys = do
    guard (leb xs p.orig_xsize)
    guard (leb ys p.orig_ysize)
    some (record p { xsize = xs; ysize = ys })

  -- PlaneRow(c, y): the plane of a channel.
  abbrev pub plane : Image3 A → ℕ → Plane A
  plane i zero = i.plane0
  plane i (suc zero) = i.plane1
  plane i (suc (suc c)) = i.plane2

  abbrev pub xsize : Image3 A → ℕ
  xsize i = i.plane0.xsize

  abbrev pub ysize : Image3 A → ℕ
  ysize i = i.plane0.ysize

  unfoldable pub shrink_to : Image3 A → ℕ → ℕ → Option (Image3 A)
  unfolding shrink_plane_to
  shrink_to i xs ys = do
    p ← shrink_plane_to i.plane0 xs ys
    q ← shrink_plane_to i.plane1 xs ys
    r ← shrink_plane_to i.plane2 xs ys
    some (record { plane0 = p; plane1 = q; plane2 = r })

  unfoldable pub has_alpha : ImageBundle A → Bool
  has_alpha b = elim b.alpha_index [ none ↦ false | some i ↦ true ]

  -- The alpha channel; its assertions fail where the metadata has none, or more channels than there are.
  unfoldable pub alpha : ImageBundle A → Option (Plane A)
  alpha b = elim b.alpha_index [ none ↦ none | some i ↦ get_elem? b.extra_channels i ]

  abbrev pub clear_extra_channels : ImageBundle A → ImageBundle A
  clear_extra_channels b = record b { extra_channels = [] }

  -- The loop of VerifySizes.
  unfoldable pub all_sized : ℕ → ℕ → List (Plane A) → Bool
  all_sized xs ys [] = true
  all_sized xs ys (ec ∷ ecs) = ec.xsize == xs && ec.ysize == ys && all_sized xs ys ecs

  -- SetFromImage: the image replaces the color, whose encoding is gray or not. Where VerifySizes looks at
  -- the image, its size is not zero.
  unfoldable pub set_from_image : ImageBundle A → Image3 A → Bool → Option (ImageBundle A)
  unfolding all_sized
  set_from_image b i gray = do
    guard (not (xsize i == 0) && not (ysize i == 0))
    guard (is_same b.metadata_gray gray)
    guard (all_sized (xsize i) (ysize i) b.extra_channels)
    some (record b { color = i; is_gray = gray })
