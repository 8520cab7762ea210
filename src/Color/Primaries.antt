-- ===== src/Color/Primaries.antt =====
-- src/lib/jxl/color_encoding_internal.h: enum class Primaries, by its numbers.
use ssimulacra2_vulcan.Common.{ℕ, Bool, ◌||◌, ◌==◌}

abbrev pub srgb : ℕ
srgb = 1

abbrev pub custom : ℕ
custom = 2

abbrev pub bt2100 : ℕ
bt2100 = 9

abbrev pub p3 : ℕ
p3 = 11

-- EnumBits
abbrev pub is_valid : ℕ → Bool
is_valid v = v == srgb || (v == custom || (v == bt2100 || v == p3))
