-- ===== src/Color/ColorSpace.antt =====
-- src/lib/jxl/color_encoding_internal.h: enum class ColorSpace, by its numbers.
use ssimulacra2_vulcan.Common.{ℕ, Bool, ◌||◌, ◌==◌}

abbrev pub rgb : ℕ
rgb = 0

abbrev pub gray : ℕ
gray = 1

abbrev pub xyb : ℕ
xyb = 2

abbrev pub unknown : ℕ
unknown = 3

-- EnumBits
abbrev pub is_valid : ℕ → Bool
is_valid v = v == rgb || (v == gray || (v == xyb || v == unknown))
