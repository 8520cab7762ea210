-- ===== src/Metric/Compute/Sizes.antt =====
-- What the calls of libjxl keep of the sizes of images, and what the steps of the loop then keep.
use ssimulacra2_vulcan.Common.{
  ℕ, ◌≤◌, ◌<◌, ◌≡◌, refl, Bool, true, false, some, [], arith, ◌==◌, if◌then◌else◌, bind-eq-some,
}
use ssimulacra2_vulcan.Arith.{Arith}
use ssimulacra2_vulcan.Image.{
  Plane, Image3, ImageBundle, xsize, ysize, shrink_to, has_alpha, alpha, clear_extra_channels,
  is_same, all_sized, set_from_image,
}
use ssimulacra2_vulcan.Image.Sizes.{PlaneSized, Sized, shrink_to-some, shrink_plane_to-some}
use ssimulacra2_vulcan.Metric.Pixels.{scaled, downsample, multiply, make_positive_xyb, alpha_blend}
use ssimulacra2_vulcan.Metric.Compute.{
  Library, Variables, blur, to_linear, to_positive_xyb, half_size, next_scale, shrink_buffers,
  blur_all, Blurred, fresh_plane,
}

-- The size that an image reports.
pub record HasSize {A : Type 0} (i : Image3 A) (xs ys : ℕ) : Type 0 where
  pub x_is : xsize i ≡ xs
  pub y_is : ysize i ≡ ys

-- An image without extra channels, whose color encoding is gray where that of its metadata is.
pub record BundleSized {F : Type 0} (b : ImageBundle F) (xs ys : ℕ) : Type 0 where
  pub size : HasSize b.color xs ys
  pub no_extra : b.extra_channels ≡ []
  pub gray : b.metadata_gray ≡ b.is_gray

-- A transform that succeeds leaves the size, the extra channels and the metadata, and sets an encoding
-- that is gray if the old one is. ToXYB and FastGaussian succeed on images of one size,
-- and leave the size of what they write.
pub record LibraryRules {F : Type 0} (lib : Library F) : Type 0 where
  pub transform_sized :
      (b o : ImageBundle F) (xs ys : ℕ)
      → lib.transform_to_linear b ≡ some o
      → BundleSized b xs ys
      → BundleSized o xs ys
  pub to_xyb_sized :
      (b : ImageBundle F) (i : Image3 F) (xs ys oxs oys : ℕ)
      → HasSize b.color xs ys
      → Sized i xs ys oxs oys
      → (j : Image3 F) × (lib.to_xyb b i ≡ some j) × Sized j xs ys oxs oys
  pub gaussian_sized :
      (p t o : Plane F) (xs ys pxs pys txs tys : ℕ)
      → PlaneSized p xs ys pxs pys
      → PlaneSized t xs ys txs tys
      → PlaneSized o xs ys xs ys
      → (q : Plane F) × (lib.fast_gaussian p t o ≡ some q) × PlaneSized q xs ys xs ys

is_same_self : (b : Bool) → is_same b b ≡ true
is_same_self true = refl
is_same_self false = refl

module _ {F : Type 0} ⦃s : Arith F⦄ where
  pub multiply-Sized :
      (a b m : Image3 F) (xs ys oxs oys : ℕ)
      → Sized m xs ys oxs oys
      → Sized (multiply a b m) xs ys oxs oys
  unfolding multiply
  multiply-Sized a b m xs ys oxs oys h = omega arith

  pub make_positive_xyb-Sized :
      (i : Image3 F) (xs ys oxs oys : ℕ)
      → Sized i xs ys oxs oys
      → Sized (make_positive_xyb i) xs ys oxs oys
  unfolding make_positive_xyb
  make_positive_xyb-Sized i xs ys oxs oys h = omega arith

  -- The checks of SetFromImage pass for an image that has pixels.
  pub half_size-some :
      (b : ImageBundle F) (xs ys : ℕ)
      → BundleSized b xs ys
      → 0 < xs
      → 0 < ys
      → (o : ImageBundle F) × (half_size b ≡ some o) × BundleSized o (scaled xs 2) (scaled ys 2)
  unfolding half_size downsample set_from_image all_sized
  half_size-some b xs ys h px py =
      let small : Image3 F = downsample b.color 2 2 in
      let wide : (xsize small == 0) ≡ false = rw (h.size.x_is) (ground arith) in
      let high : (ysize small == 0) ≡ false = rw (h.size.y_is) (ground arith) in
      let fits : is_same b.metadata_gray b.is_gray ≡ true = rw (h.gray) (is_same_self b.is_gray) in
      (
        record b { color = small; is_gray = b.is_gray },
        rw (wide, high, fits, h.no_extra) refl,
        record {
          size = record { x_is = rw (h.size.x_is) refl; y_is = rw (h.size.y_is) refl };
          no_extra = h.no_extra;
          gray = h.gray;
        },
      )

module _ {F : Type 0} ⦃s : Arith F⦄ (lib : Library F) (rules : LibraryRules lib) where
  pub to_positive_xyb-some :
      (b : ImageBundle F) (i : Image3 F) (xs ys oxs oys : ℕ)
      → HasSize b.color xs ys
      → Sized i xs ys oxs oys
      → (j : Image3 F) × (to_positive_xyb lib b i ≡ some j) × Sized j xs ys oxs oys
  unfolding to_positive_xyb
  to_positive_xyb-some b i xs ys oxs oys hb hi =
      let (j, e, sj) = rules.to_xyb_sized b i xs ys oxs oys hb hi in
      (make_positive_xyb j, rw e, make_positive_xyb-Sized j xs ys oxs oys sj)

  pub blur-some :
      (t : Plane F) (i : Image3 F) (xs ys oxs oys txs tys : ℕ)
      → PlaneSized t xs ys txs tys
      → Sized i xs ys oxs oys
      → (j : Image3 F) × (blur lib t i ≡ some j) × Sized j xs ys xs ys
  unfolding blur
  blur-some t i xs ys oxs oys txs tys ht hi =
      let out : Plane F = fresh_plane (xsize i) (ysize i) in
      let so : PlaneSized out xs ys xs ys = omega arith in
      let (p, e0, s0) = rules.gaussian_sized i.plane0 t out xs ys oxs oys txs tys hi.sized0 ht so in
      let (q, e1, s1) = rules.gaussian_sized i.plane1 t out xs ys oxs oys txs tys hi.sized1 ht so in
      let (r, e2, s2) = rules.gaussian_sized i.plane2 t out xs ys oxs oys txs tys hi.sized2 ht so in
      (
        record { plane0 = p; plane1 = q; plane2 = r },
        rw (e0, e1, e2),
        record { sized0 = s0; sized1 = s1; sized2 = s2 },
      )

-- The images of one scale, all of one size; the buffers have the last scale's, and all were
-- allocated for the first.
pub record VariablesSized {F : Type 0} (v : Variables F) (xs ys mx my oxs oys : ℕ) : Type 0 where
  pub orig2_size : BundleSized v.orig2 xs ys
  pub dist2_size : BundleSized v.dist2 xs ys
  pub img1_size : Sized v.img1 xs ys oxs oys
  pub img2_size : Sized v.img2 xs ys oxs oys
  pub mul_size : Sized v.mul mx my oxs oys
  pub temp_size : PlaneSized v.temp mx my oxs oys

module _ {F : Type 0} ⦃s : Arith F⦄ where
  blended-BundleSized :
      (b x : ImageBundle F) (bg : F) (xs ys : ℕ)
      → (if has_alpha b then alpha_blend b bg else some b) ≡ some x
      → HasSize b.color xs ys
      → b.metadata_gray ≡ b.is_gray
      → BundleSized (clear_extra_channels x) xs ys
  unfolding alpha_blend has_alpha alpha
  blended-BundleSized b x bg xs ys e h g = ground arith

module _ {F : Type 0} where
  pub shrink_buffers-some :
      (v : Variables F) (xs ys mx my oxs oys : ℕ)
      → VariablesSized v xs ys mx my oxs oys
      → xs ≤ oxs
      → ys ≤ oys
      → (w : Variables F) × (shrink_buffers v ≡ some w) × VariablesSized w xs ys xs ys oxs oys
  unfolding shrink_buffers
  shrink_buffers-some v xs ys mx my oxs oys h hx hy =
      let (m, e, sm) =
        shrink_to-some v.mul mx my oxs oys xs ys h.mul_size (omega arith) (omega arith) in
      let (t, e', st) =
        shrink_plane_to-some v.temp mx my oxs oys xs ys h.temp_size (omega arith) (omega arith) in
      let i = h.img1_size.sized0 in
      (
        record v { mul = m; temp = t },
        rw (i.x_size, i.y_size, e, e'),
        record {
          orig2_size = h.orig2_size;
          dist2_size = h.dist2_size;
          img1_size = h.img1_size;
          img2_size = h.img2_size;
          mul_size = sm;
          temp_size = st;
        },
      )

module _ {F : Type 0} ⦃s : Arith F⦄ (lib : Library F) (rules : LibraryRules lib) where
  -- The calls of the branch `if (scale)`, one after the other.
  next_scale_calls :
      (v : Variables F) {o d : ImageBundle F} {i j k l : Image3 F} (xs ys : ℕ)
      → half_size v.orig2 ≡ some o
      → half_size v.dist2 ≡ some d
      → HasSize o.color xs ys
      → shrink_to v.img1 xs ys ≡ some i
      → shrink_to v.img2 xs ys ≡ some j
      → to_positive_xyb lib o i ≡ some k
      → to_positive_xyb lib d j ≡ some l
      → next_scale lib v ≡ some (record v { orig2 = o; dist2 = d; img1 = k; img2 = l })
  unfolding next_scale
  next_scale_calls v xs ys eo ed h e1 e2 e3 e4 = simp (eo, ed, h.x_is, h.y_is, e1, e2, e3, e4)

  pub next_scale-some :
      (v : Variables F) (xs ys mx my oxs oys : ℕ)
      → VariablesSized v xs ys mx my oxs oys
      → 0 < xs
      → 0 < ys
      → xs ≤ oxs
      → ys ≤ oys
      → (w : Variables F) × (next_scale lib v ≡ some w)
        × VariablesSized w (scaled xs 2) (scaled ys 2) mx my oxs oys
  next_scale-some v xs ys mx my oxs oys h nx ny hx hy =
      let (o, eo, so) = half_size-some v.orig2 xs ys h.orig2_size nx ny in
      let (d, ed, sd) = half_size-some v.dist2 xs ys h.dist2_size nx ny in
      let px : scaled xs 2 ≤ oxs = omega arith in
      let py : scaled ys 2 ≤ oys = omega arith in
      let (i, e1, s1) = shrink_to-some v.img1 xs ys oxs oys _ _ h.img1_size px py in
      let (j, e2, s2) = shrink_to-some v.img2 xs ys oxs oys _ _ h.img2_size px py in
      let (k, e3, s3) = to_positive_xyb-some lib rules o i _ _ oxs oys so.size s1 in
      let (l, e4, s4) = to_positive_xyb-some lib rules d j _ _ oxs oys sd.size s2 in
      (
        record v { orig2 = o; dist2 = d; img1 = k; img2 = l },
        next_scale_calls v _ _ eo ed so.size e1 e2 e3 e4,
        record {
          orig2_size = so;
          dist2_size = sd;
          img1_size = s3;
          img2_size = s4;
          mul_size = h.mul_size;
          temp_size = h.temp_size;
        },
      )

  pub blur_all-some :
      (v : Variables F) (xs ys oxs oys : ℕ)
      → VariablesSized v xs ys xs ys oxs oys
      → (b : Blurred F) × (blur_all lib v ≡ some b) × Sized b.mu1 xs ys xs ys
  unfolding blur_all
  blur_all-some v xs ys oxs oys h =
      let blurs : (i : Image3 F)
          → Sized i xs ys oxs oys
          → (j : Image3 F) × (blur lib v.temp i ≡ some j) × Sized j xs ys xs ys =
        λ i si. blur-some lib rules v.temp i xs ys oxs oys oxs oys h.temp_size si in
      let s1 = multiply-Sized v.img1 v.img1 v.mul xs ys oxs oys h.mul_size in
      let s2 = multiply-Sized v.img2 v.img2 _ xs ys oxs oys s1 in
      let s3 = multiply-Sized v.img1 v.img2 _ xs ys oxs oys s2 in
      let (a, e1, _) = blurs _ s1 in
      let (b, e2, _) = blurs _ s2 in
      let (c, e3, _) = blurs _ s3 in
      let (d, e4, sd) = blurs _ h.img1_size in
      let (e, e5, _) = blurs _ h.img2_size in
      (
        record { sigma1_sq = a; sigma2_sq = b; sigma12 = c; mu1 = d; mu2 = e },
        rw (e1, e2, e3, e4, e5),
        sd,
      )

  pub to_linear-BundleSized :
      (b o : ImageBundle F) (bg : F) (xs ys : ℕ)
      → to_linear lib b bg ≡ some o
      → HasSize b.color xs ys
      → b.metadata_gray ≡ b.is_gray
      → BundleSized o xs ys
  unfolding to_linear
  to_linear-BundleSized b o bg xs ys e h g =
      let (x, ex, et) =
        bind-eq-some (if has_alpha b then alpha_blend b bg else some b)
          (λ blended. lib.transform_to_linear (clear_extra_channels blended)) e in
      rules.transform_sized _ o xs ys et (blended-BundleSized b x bg xs ys ex h g)
