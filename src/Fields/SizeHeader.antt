-- ===== src/Fields/SizeHeader.antt =====
-- src/lib/jxl/headers.cc and src/lib/jxl/headers.h: SizeHeader and PreviewHeader, a size in few bits.
-- uint32_t and size_t are numbers below 2 ^ 32 and 2 ^ 64; the checks by JXL_ASSERT are theorems.
pub mod Kept
use ssimulacra2_vulcan.Common.{
  ℕ, zero, suc, ◌+◌, ◌-◌, ◌*◌, ◌/◌, ◌%◌, ◌^◌, ◌<◌, ◌≤◌, ◌≡◌, ◌≢◌, ◌⊎◌, ◌↔◌, inl, inr, refl, sym,
  Bool, true, false, not, ◌&&◌, ◌||◌, Option, none, some, ltb, leb, ◌==◌, if◌then◌else◌, arith,
  Bool-cases, ap, ◌∙◌, some-eq, List, [], ◌∷◌, get_or,
}

pub record Rational : Type 0 where
  pub num : ℕ
  pub den : ℕ

-- In 64 bits, and cut to 32.
unfoldable pub mul_truncate : Rational → ℕ → ℕ
mul_truncate r multiplicand = multiplicand * r.num % 2 ^ 64 / r.den % 2 ^ 32

abbrev pub ratios : List Rational
ratios =
    record { num = 1; den = 1 }
    ∷ record { num = 12; den = 10 }
    ∷ record { num = 4; den = 3 }
    ∷ record { num = 3; den = 2 }
    ∷ record { num = 16; den = 9 }
    ∷ record { num = 5; den = 4 }
    ∷ record { num = 2; den = 1 }
    ∷ []

-- kRatios[ratio - 1], for the ratios 1 to 7, which the source asserts.
unfoldable pub fixed_aspect_ratios : ℕ → Rational
fixed_aspect_ratios ratio = get_or ratios (ratio - 1) (record { num = 0; den = 1 })

-- The loop from r on, with the rounds that are left.
unfoldable pub find_from : ℕ → ℕ → ℕ → ℕ → ℕ
find_from zero r xsize ysize = 0
find_from (suc n) r xsize ysize =
    let later = find_from n (suc r) xsize ysize in
    if xsize == mul_truncate (fixed_aspect_ratios r) ysize then r else later

unfoldable pub find_aspect_ratio : ℕ → ℕ → ℕ
find_aspect_ratio xsize ysize = find_from 7 1 xsize ysize

pub record SizeHeader : Type 0 where
  pub small : Bool
  pub ysize_div8_minus_1 : ℕ
  pub ysize : ℕ
  pub ratio : ℕ
  pub xsize_div8_minus_1 : ℕ
  pub xsize : ℕ

unfoldable pub get_ysize : SizeHeader → ℕ
get_ysize h = if h.small then (h.ysize_div8_minus_1 + 1) * 8 else h.ysize

unfoldable pub get_xsize : SizeHeader → ℕ
get_xsize h =
    if not (h.ratio == 0)
    then mul_truncate (fixed_aspect_ratios (h.ratio)) (get_ysize h % 2 ^ 32)
    else if h.small
    then (h.xsize_div8_minus_1 + 1) * 8
    else h.xsize

-- The assignments of Set, with the ratio that was found.
unfoldable pub assign_sizes : ℕ → SizeHeader → ℕ → ℕ → SizeHeader
assign_sizes r h xs ys =
    let s = leb ys 256 && ys % 8 == 0 && (not (r == 0) || (leb xs 256 && xs % 8 == 0)) in
    record {
      small = s;
      ysize_div8_minus_1 = (if s then ys / 8 - 1 else h.ysize_div8_minus_1);
      ysize = (if s then h.ysize else ys);
      ratio = r;
      xsize_div8_minus_1 = (if r == 0 && s then xs / 8 - 1 else h.xsize_div8_minus_1);
      xsize = (if r == 0 && not s then xs else h.xsize);
    }

unfoldable pub set_size : SizeHeader → ℕ → ℕ → Option SizeHeader
set_size h xsize64 ysize64 =
    if ltb 4294967295 xsize64 || ltb 4294967295 ysize64
    then none
    else if xsize64 == 0 || ysize64 == 0
    then none
    else some (assign_sizes (find_aspect_ratio xsize64 ysize64) h xsize64 ysize64)

pub record PreviewHeader : Type 0 where
  pub div8 : Bool
  pub ysize_div8 : ℕ
  pub ysize : ℕ
  pub ratio : ℕ
  pub xsize_div8 : ℕ
  pub xsize : ℕ

unfoldable pub get_preview_ysize : PreviewHeader → ℕ
get_preview_ysize h = if h.div8 then h.ysize_div8 * 8 else h.ysize

unfoldable pub get_preview_xsize : PreviewHeader → ℕ
get_preview_xsize h =
    if not (h.ratio == 0)
    then mul_truncate (fixed_aspect_ratios (h.ratio)) (get_preview_ysize h % 2 ^ 32)
    else if h.div8
    then h.xsize_div8 * 8
    else h.xsize

unfoldable pub assign_preview : ℕ → PreviewHeader → ℕ → ℕ → ℕ → ℕ → PreviewHeader
assign_preview r h xs ys xs64 ys64 =
    let d = xs64 % 8 == 0 && ys64 % 8 == 0 in
    record {
      div8 = d;
      ysize_div8 = (if d then ys / 8 else h.ysize_div8);
      ysize = (if d then h.ysize else ys);
      ratio = r;
      xsize_div8 = (if r == 0 && d then xs / 8 else h.xsize_div8);
      xsize = (if r == 0 && not d then xs else h.xsize);
    }

-- There is no check that the sizes fit into 32 bits.
unfoldable pub set_preview_size : PreviewHeader → ℕ → ℕ → Option PreviewHeader
set_preview_size h xsize64 ysize64 =
    let xs = xsize64 % 2 ^ 32 in
    let ys = ysize64 % 2 ^ 32 in
    if xsize64 == 0 || ysize64 == 0
    then none
    else some (assign_preview (find_aspect_ratio xs ys) h xs ys xsize64 ysize64)
