-- ===== src/Tests/Identical.antt =====
-- The score of an image and itself, over an arithmetic with both zeros, infinities and NaN.
use ssimulacra2_vulcan.Common.{
  ℕ, zero, suc, ◌+◌, ◌-◌, ◌≡◌, refl, subst, Bool, true, false, none, some, List, [], ltb, ◌==◌,
  if◌then◌else◌, Bool-cases, inl, inr, bind-eq-some, some-eq, arith,
}
use ssimulacra2_vulcan.Arith.{◌⊖◌, decimal}
use ssimulacra2_vulcan.Arith.Signed.{
  Signed, finite, signed, unchanged, IsFinite, add, negate, mul, equals, sign, is_same,
  signed-FiniteRules, signed-ZeroRules, signed-DoubleRules,
}
use ssimulacra2_vulcan.Image.{
  Plane, Image3, ImageBundle, new_plane, plane, xsize, ysize, has_alpha, shrink_to, shrink_plane_to,
}
use ssimulacra2_vulcan.Metric.Pixels.{make_positive_xyb, multiply}
use ssimulacra2_vulcan.Metric.Maps.Identical.{RegularPixel}
use ssimulacra2_vulcan.Metric.Score.{MsssimScale, score}
use ssimulacra2_vulcan.Metric.Compute.{
  Library, Variables, Blurred, to_linear, to_positive_xyb, half_size, next_scale, shrink_buffers,
  blur_all, blur, start, fresh_image, compute_ssimulacra2,
}
use ssimulacra2_vulcan.Metric.Compute.Sizes.{HasSize, BundleSized, LibraryRules}
use ssimulacra2_vulcan.Metric.Compute.Identical.{AllRounds, RegularRound, score_identical}

abbrev zeros : Plane Signed → Plane Signed
zeros p = record p { pixel = λ y x. finite false 0 }

abbrev black : Image3 Signed → Image3 Signed
black i = record { plane0 = zeros i.plane0; plane1 = zeros i.plane1; plane2 = zeros i.plane2 }

-- Every image is black, and the blur does nothing.
abbrev dark : Library Signed
dark = record {
  transform_to_linear = λ b. some b;
  to_xyb = λ b i. some (black i);
  fast_gaussian = λ p t o. some o;
}

dark-LibraryRules : LibraryRules dark
dark-LibraryRules = record {
  transform_sized = λ b o xs ys e h. subst (λ i. BundleSized i xs ys) (some-eq e) h;
  to_xyb_sized = λ b i xs ys oxs oys hb hi. (black i, refl, omega arith);
  gaussian_sized = λ p t o xs ys pxs pys txs tys hp ht ho. (o, refl, ho);
}

abbrev IsRegular : Image3 Signed → Type 0
IsRegular i = (c y x : ℕ) → IsFinite ((plane i c).pixel y x)

either_finite : (b : Bool) (s t : Bool) (m n : ℕ) → IsFinite (if b then finite s m else finite t n)
either_finite true s t m n = (s, m, refl)
either_finite false s t m n = (t, n, refl)

positive-IsRegular : (i : Image3 Signed) → IsRegular (make_positive_xyb (black i))
unfolding make_positive_xyb add mul negate sign is_same
positive-IsRegular i zero y x = either_finite _ false false 42 0
positive-IsRegular i (suc zero) y x = either_finite _ false false 1 0
positive-IsRegular i (suc (suc c)) y x = either_finite _ false false 55 0

sub_zero-IsFinite : (x : Signed) → IsFinite x → IsFinite (x ⊖ decimal 0 0)
unfolding add negate is_same
sub_zero-IsFinite x (true, a, e) = rw e (true, a + 0, refl)
sub_zero-IsFinite x (false, a, e) = elim (Bool-cases (a == 0)) [
  | inl none_left ↦ rw (e, none_left) (false, 0, refl)
  | inr some_left ↦ rw (e, some_left) (either_finite (ltb 0 a) false true (a - 0) (0 - a))
]

next-IsRegular : (v u : Variables Signed) → next_scale dark v ≡ some u → IsRegular u.img1
unfolding next_scale to_positive_xyb
next-IsRegular v u e =
    let (o, eo, e1) = bind-eq-some (half_size v.orig2) _ e in
    let (d, ed, e2) = bind-eq-some (half_size v.dist2) _ e1 in
    let (i, ei, e3) = bind-eq-some (shrink_to v.img1 (xsize o.color) (ysize o.color)) _ e2 in
    let (j, ej, e4) = bind-eq-some (shrink_to v.img2 (xsize o.color) (ysize o.color)) _ e3 in
    subst (λ (w : Variables Signed). IsRegular w.img1) (some-eq e4) (positive-IsRegular i)

shrink-IsRegular :
    (u w : Variables Signed) → shrink_buffers u ≡ some w → IsRegular u.img1 → IsRegular w.img1
unfolding shrink_buffers
shrink-IsRegular u w e h =
    let (m, em, e1) = bind-eq-some (shrink_to u.mul (xsize u.img1) (ysize u.img1)) _ e in
    let (t, et, e2) = bind-eq-some (shrink_plane_to u.temp (xsize u.img1) (ysize u.img1)) _ e1 in
    subst (λ (z : Variables Signed). IsRegular z.img1) (some-eq e2) h

zero-RegularPixel : RegularPixel IsFinite (finite false 0) (finite false 0)
unfolding add mul negate equals sign is_same
zero-RegularPixel = record {
  mean = (false, 0, refl);
  variance = (false, 0, refl);
  denominator = (false, 9, refl);
  not_zero = refl;
}

fresh-RegularPixel :
    (ax ay bx by c y x : ℕ)
    → RegularPixel IsFinite
        ((plane (fresh_image ax ay) c).pixel y x)
        ((plane (fresh_image bx by) c).pixel y x)
fresh-RegularPixel ax ay bx by zero y x = zero-RegularPixel
fresh-RegularPixel ax ay bx by (suc zero) y x = zero-RegularPixel
fresh-RegularPixel ax ay bx by (suc (suc c)) y x = zero-RegularPixel

sub_fresh-IsFinite :
    (xs ys c y x : ℕ) (z : Signed)
    → IsFinite z
    → IsFinite (z ⊖ (plane (fresh_image xs ys) c).pixel y x)
sub_fresh-IsFinite xs ys zero y x z h = sub_zero-IsFinite z h
sub_fresh-IsFinite xs ys (suc zero) y x z h = sub_zero-IsFinite z h
sub_fresh-IsFinite xs ys (suc (suc c)) y x z h = sub_zero-IsFinite z h

round-RegularRound :
    (w : Variables Signed) (b : Blurred Signed)
    → IsRegular w.img1
    → blur_all dark w ≡ some b
    → RegularRound IsFinite w b
unfolding blur_all blur
round-RegularRound w b h e =
    let square = multiply w.img1 w.img1 w.mul in
    subst (λ (z : Blurred Signed). RegularRound IsFinite w z) (some-eq e)
      (record {
        map = record {
          pixels = λ ch y x.
              fresh-RegularPixel (xsize w.img1) (ysize w.img1) (xsize square) (ysize square) ch y x;
        };
        edges = record {
          pixels = λ ch y x.
              sub_fresh-IsFinite (xsize w.img1) (ysize w.img1) ch y x ((plane w.img1 ch).pixel y x)
                (h ch y x);
        };
      })

all-RegularRound :
    (n scale : ℕ) (v : Variables Signed)
    → IsRegular v.img1
    → AllRounds dark (RegularRound IsFinite) n scale v
unfolding AllRounds
all-RegularRound zero scale v h = tt
all-RegularRound (suc n) scale v h = λ u w b big eu ew eb.
    let halved : IsRegular u.img1 = elim (Bool-cases (scale == 0)) [
      | inl first ↦
          let same : v ≡ u = some-eq (rw first at eu) in
          subst (λ (z : Variables Signed). IsRegular z.img1) same h
      | inr later ↦ next-IsRegular v u (rw later at eu)
    ] in
    let ready = shrink-IsRegular u w ew halved in
    (round-RegularRound w b ready eb, all-RegularRound n (scale + 1) w ready)

-- An image with 16 columns and 9 rows.
abbrev ramp : ImageBundle Signed
ramp =
    let p : Plane Signed = new_plane 16 9 (λ y x. finite false x) in
    record {
      color = record { plane0 = p; plane1 = p; plane2 = p };
      extra_channels = [];
      is_gray = false;
      alpha_index = none;
      metadata_gray = false;
    }

ramp-HasSize : HasSize ramp.color 16 9
ramp-HasSize = omega arith

ramp-to_linear : to_linear dark ramp (finite false 1) ≡ some ramp
unfolding to_linear has_alpha
ramp-to_linear = refl

start-IsRegular :
    (v : Variables Signed) → start dark ramp ramp (finite false 1) ≡ some v → IsRegular v.img1
unfolding start to_linear has_alpha to_positive_xyb
start-IsRegular v e =
    subst (λ (z : Variables Signed). IsRegular z.img1) (some-eq e)
      (positive-IsRegular (fresh_image 16 9))

score_identical_example :
    (scales : List (MsssimScale Signed)) × (compute_ssimulacra2 unchanged dark ramp ramp
        (finite false 1)
      ≡ some scales)
    × (score unchanged scales ≡ finite false 100)
score_identical_example =
    score_identical unchanged IsFinite signed-FiniteRules signed-ZeroRules signed-DoubleRules dark
      dark-LibraryRules ramp ramp (finite false 1) 16 9 ramp-HasSize refl ramp-to_linear
      (λ v e. all-RegularRound 6 0 v (start-IsRegular v e))
