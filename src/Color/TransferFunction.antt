-- ===== src/Color/TransferFunction.antt =====
-- src/lib/jxl/color_encoding_internal.h: enum class TransferFunction, by its numbers.
use ssimulacra2_vulcan.Common.{ℕ, Bool, ◌||◌, ◌==◌}

abbrev pub bt709 : ℕ
bt709 = 1

abbrev pub unknown : ℕ
unknown = 2

abbrev pub linear : ℕ
linear = 8

abbrev pub srgb : ℕ
srgb = 13

abbrev pub pq : ℕ
pq = 16

abbrev pub dci : ℕ
dci = 17

abbrev pub hlg : ℕ
hlg = 18

-- EnumBits
abbrev pub is_valid : ℕ → Bool
is_valid v =
    v == bt709
    || (v == unknown || (v == linear || (v == srgb || (v == pq || (v == dci || v == hlg)))))
