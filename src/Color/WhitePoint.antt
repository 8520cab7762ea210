-- ===== src/Color/WhitePoint.antt =====
-- src/lib/jxl/color_encoding_internal.h: enum class WhitePoint, by its numbers.
use ssimulacra2_vulcan.Common.{ℕ, Bool, ◌||◌, ◌==◌}

abbrev pub d65 : ℕ
d65 = 1

abbrev pub custom : ℕ
custom = 2

abbrev pub equal_energy : ℕ
equal_energy = 10

abbrev pub dci : ℕ
dci = 11

-- EnumBits
abbrev pub is_valid : ℕ → Bool
is_valid v = v == d65 || (v == custom || (v == equal_energy || v == dci))
