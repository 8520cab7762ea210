-- ===== src/Pnm/PamRefused.antt =====
-- src/lib/extras/dec/pnm.cc, ParseHeaderPAM: headers of lines with a number.
use ssimulacra2_vulcan.Common.{
  ℕ, zero, suc, ◌^◌, ◌<◌, ◌≤◌, ◌≡◌, refl, none, List, [], ◌∷◌, ◌++◌, All, Bytes, codes, ap, ◌∙◌,
  length, length-append, arith,
}
use ssimulacra2_vulcan.Arith.{Arith}
use ssimulacra2_vulcan.Pnm.Decimal.{to_decimal, EndsNumber}
use ssimulacra2_vulcan.Pnm.Header.{empty_header}
use ssimulacra2_vulcan.Pnm.Pam.{
  PamFields, failed, finish_pam, pam_lines, parse_header_pam, parse_header,
}
use ssimulacra2_vulcan.Pnm.PamTrip.{width_line, height_line, depth_line, maxval_line, end_unseen}

-- The keywords that are followed by a number.
pub data Keyword : Type 0 where
  width height depth max_val : Keyword

abbrev pub keyword : Keyword → Bytes
keyword width = codes "\nWIDTH "
keyword height = codes "\nHEIGHT "
keyword depth = codes "\nDEPTH "
keyword max_val = codes "\nMAXVAL "

-- Lines of a keyword with its number, each behind a line break, and then the line ENDHDR and the raster.
abbrev pub number_lines : List (Keyword × ℕ) → Bytes → Bytes
number_lines [] raster = codes "\nENDHDR\n" ++ raster
number_lines ((k, n) ∷ ls) raster = keyword k ++ (to_decimal n ++ number_lines ls raster)

abbrev pub IsWord : Keyword × ℕ → Type 0
IsWord (k, n) = n < 2 ^ 64

number_lines-EndsNumber :
    (ls : List (Keyword × ℕ)) (raster : Bytes) → EndsNumber (number_lines ls raster)
number_lines-EndsNumber [] raster = refl
number_lines-EndsNumber ((width, n) ∷ ls) raster = refl
number_lines-EndsNumber ((height, n) ∷ ls) raster = refl
number_lines-EndsNumber ((depth, n) ∷ ls) raster = refl
number_lines-EndsNumber ((max_val, n) ∷ ls) raster = refl

keyword_long : (k : Keyword) → 1 ≤ length (keyword k)
keyword_long width = omega arith
keyword_long height = omega arith
keyword_long depth = omega arith
keyword_long max_val = omega arith

-- Each line takes a byte.
length-number_lines :
    (ls : List (Keyword × ℕ)) (raster : Bytes) → length ls ≤ length (number_lines ls raster)
length-number_lines [] raster = omega arith
length-number_lines ((k, n) ∷ ls) raster = omega (
  arith,
  length-append (keyword k) (to_decimal n ++ number_lines ls raster),
  length-append (to_decimal n) (number_lines ls raster),
  keyword_long k,
  length-number_lines ls raster,
)

-- The lines with a number are read, and ENDHDR behind a line break is not seen.
lines_refused :
    (fuel : ℕ) (f : PamFields) (ls : List (Keyword × ℕ)) (raster : Bytes)
    → length ls < fuel
    → All IsWord ls
    → pam_lines fuel f (number_lines ls raster) ≡ failed
lines_refused zero f ls raster lt small = elim lt [ ]
lines_refused (suc fuel) f [] raster lt small = end_unseen fuel f raster
lines_refused (suc fuel) f ((width, n) ∷ ls) raster lt (word, words) =
    width_line fuel f n (number_lines ls raster) word (number_lines-EndsNumber ls raster)
    ∙ lines_refused fuel _ ls raster (omega arith) words
lines_refused (suc fuel) f ((height, n) ∷ ls) raster lt (word, words) =
    height_line fuel f n (number_lines ls raster) word (number_lines-EndsNumber ls raster)
    ∙ lines_refused fuel _ ls raster (omega arith) words
lines_refused (suc fuel) f ((depth, n) ∷ ls) raster lt (word, words) =
    depth_line fuel f n (number_lines ls raster) word (number_lines-EndsNumber ls raster)
    ∙ lines_refused fuel _ ls raster (omega arith) words
lines_refused (suc fuel) f ((max_val, n) ∷ ls) raster lt (word, words) =
    maxval_line fuel f n (number_lines ls raster) word (number_lines-EndsNumber ls raster)
    ∙ lines_refused fuel _ ls raster (omega arith) words

-- A PAM file is refused if between P7 and ENDHDR there are only lines of WIDTH, HEIGHT, DEPTH or MAXVAL with a blank
-- and a decimal number below 2 ^ 64, where each line, ENDHDR too, stands directly behind a line break: whatever the
-- numbers are, in any order, any of them repeated or left out, and whatever the raster is.
pub number_lines-refused :
    (D : Type 0) ⦃d : Arith D⦄ (ls : List (Keyword × ℕ)) (raster : Bytes)
    → All IsWord ls
    → parse_header D empty_header (codes "P7" ++ number_lines ls raster) ≡ none
unfolding parse_header parse_header_pam
number_lines-refused D ls raster small = ap finish_pam (
    lines_refused (suc (length (number_lines ls raster)))
      (record { header = empty_header; depth = 3; max_val = 255 }) ls raster
      (omega (arith, length-number_lines ls raster)) small)
