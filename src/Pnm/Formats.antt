-- ===== src/Pnm/Formats.antt =====
-- src/lib/extras/enc/pnm.cc: the pixel formats that PPMEncoder, PFMEncoder, PGMEncoder and PAMEncoder accept.
use ssimulacra2_vulcan.Common.{
  ℕ, Bool, true, false, not, ◌&&◌, List, [], ◌∷◌, ◌++◌, ltb, ◌==◌, if◌then◌else◌,
}
use ssimulacra2_vulcan.Pnm.Raster.{DataType, uint8, uint16, float, float16, PixelFormat}

abbrev both_orders : ℕ → DataType → List PixelFormat
both_orders n t =
    record { num_channels = n; data_type = t; big_endian = true }
    ∷ record { num_channels = n; data_type = t; big_endian = false }
    ∷ []

-- The three nested loops, for two data types.
unfoldable pub formats_of : List ℕ → DataType → DataType → List PixelFormat
formats_of [] t u = []
formats_of (n ∷ ns) t u = both_orders n t ++ (both_orders n u ++ formats_of ns t u)

unfoldable pub ppm_formats : List PixelFormat
unfolding formats_of
ppm_formats = formats_of (1 ∷ 2 ∷ 3 ∷ 4 ∷ []) uint8 uint16

unfoldable pub pfm_formats : List PixelFormat
unfolding formats_of
pfm_formats = formats_of (1 ∷ 3 ∷ []) float16 float

-- The loop that erases the formats that fail a test.
unfoldable pub keep : (ℕ → Bool) → List PixelFormat → List PixelFormat
keep test [] = []
keep test (f ∷ fs) = let rest = keep test fs in if test (f.num_channels) then f ∷ rest else rest

unfoldable pub pgm_formats : List PixelFormat
unfolding keep ppm_formats
pgm_formats = keep (λ n. not (ltb 2 n)) ppm_formats

unfoldable pub pam_formats : List PixelFormat
unfolding keep ppm_formats
pam_formats = keep (λ n. not (not (n == 2) && not (n == 4))) ppm_formats
