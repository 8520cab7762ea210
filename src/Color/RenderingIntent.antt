-- ===== src/Color/RenderingIntent.antt =====
-- src/lib/jxl/color_encoding_internal.h: enum class RenderingIntent, by its numbers.
use ssimulacra2_vulcan.Common.{ℕ, Bool, ◌||◌, ◌==◌}

abbrev pub perceptual : ℕ
perceptual = 0

abbrev pub relative : ℕ
relative = 1

abbrev pub saturation : ℕ
saturation = 2

abbrev pub absolute : ℕ
absolute = 3

-- EnumBits
abbrev pub is_valid : ℕ → Bool
is_valid v = v == perceptual || (v == relative || (v == saturation || v == absolute))
