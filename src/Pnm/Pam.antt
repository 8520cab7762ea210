-- ===== src/Pnm/Pam.antt =====
-- src/lib/extras/dec/pnm.cc: the header of a PAM file, and the choice of the header by the magic number.
use ssimulacra2_vulcan.Common.{
  ℕ, zero, suc, ◌+◌, true, false, Option, none, some, [], ◌∷◌, length, ◌==◌, not, if◌then◌else◌,
  ◌>>=◌, ◌>>◌, guard, Bytes, codes,
}
use ssimulacra2_vulcan.Arith.{Arith}
use ssimulacra2_vulcan.Pnm.Lexer.{skip_whitespace, parse_unsigned, match_string}
use ssimulacra2_vulcan.Pnm.Header.{HeaderPnm, sample_bits, parse_header_pnm, parse_header_pfm}

-- The header, and the locals `depth` and `max_val`.
pub record PamFields : Type 0 where
  pub header : HeaderPnm
  pub depth : ℕ
  pub max_val : ℕ

abbrev pub set_alpha : PamFields → PamFields
set_alpha f = record f { header = record (f.header) { has_alpha = true } }

abbrev pub set_gray : PamFields → PamFields
set_gray f = record f { header = record (f.header) { is_gray = true } }

-- The values of TUPLTYPE, in the order of the tests. A test that fails may have moved the position.
unfoldable pub tuple_type : PamFields → Bytes → Option (PamFields × Bytes)
tuple_type f p0 =
    let (is_rgba, p1) = match_string (codes "RGB_ALPHA") true p0 in
    let (is_rgb, p2) = match_string (codes "RGB") true p1 in
    let (is_graya, p3) = match_string (codes "GRAYSCALE_ALPHA") true p2 in
    let (is_gray, p4) = match_string (codes "GRAYSCALE") true p3 in
    let (is_bwa, p5) = match_string (codes "BLACKANDWHITE_ALPHA") true p4 in
    let (is_bw, p6) = match_string (codes "BLACKANDWHITE") true p5 in
    if is_rgba
    then some (set_alpha f, p1)
    else if is_rgb
    then some (f, p2)
    else if is_graya
    then some (set_gray (set_alpha f), p3)
    else if is_gray
    then some (set_gray f, p4)
    else if is_bwa
    then some (record (set_gray (set_alpha f)) { max_val = 1 }, p5)
    else if is_bw
    then some (record (set_gray f) { max_val = 1 }, p6)
    else none

-- What a keyword sets to the number behind it.
abbrev pub set_number : (ℕ → PamFields) → Bytes → Option (PamFields × Bytes)
set_number set cs = do n ← parse_unsigned cs; some (set (n.0), n.1)

-- One line of the header: the body of the loop, behind SkipWhitespace.
unfoldable pub pam_line : PamFields → Bytes → Option (PamFields × Bytes)
pam_line f p0 =
    let (is_width, p1) = match_string (codes "WIDTH") true p0 in
    let (is_height, p2) = match_string (codes "HEIGHT") true p1 in
    let (is_depth, p3) = match_string (codes "DEPTH") true p2 in
    let (is_maxval, p4) = match_string (codes "MAXVAL") true p3 in
    let (is_tupltype, p5) = match_string (codes "TUPLTYPE") true p4 in
    if is_width
    then set_number (λ n. record f { header = record (f.header) { xsize = n } }) p1
    else if is_height
    then set_number (λ n. record f { header = record (f.header) { ysize = n } }) p2
    else if is_depth
    then set_number (λ n. record f { depth = n }) p3
    else if is_maxval
    then set_number (λ n. record f { max_val = n }) p4
    else if is_tupltype
    then tuple_type f p5
    else none

-- How the loop over the lines ends; `out_of_fuel` stands for a loop that goes on.
pub data PamLines : Type 0 where
  failed out_of_fuel : PamLines
  ended : PamFields → Bytes → PamLines

-- while (!MatchString("ENDHDR")) { SkipWhitespace; one line }
unfoldable pub pam_lines : ℕ → PamFields → Bytes → PamLines
pam_lines zero f p0 = out_of_fuel
pam_lines (suc fuel) f p0 =
    let (is_end, p1) = match_string (codes "ENDHDR") false p0 in
    elim is_end [
      | true ↦ ended f p1
      | false ↦ elim (skip_whitespace p1 >>= pam_line f) [
        | none ↦ failed
        | some (g, p2) ↦ pam_lines fuel g p2
      ]
    ]

unfoldable pub num_channels : HeaderPnm → ℕ
num_channels h = (if h.is_gray then 1 else 3) + (if h.has_alpha then 1 else 0)

-- The checks behind the loop.
unfoldable pub check_pam : PamFields → Option HeaderPnm
unfolding num_channels
check_pam f = do
  guard (num_channels (f.header) == f.depth)
  bits ← sample_bits (f.max_val)
  some (record (f.header) { bits_per_sample = bits; floating_point = false; big_endian = true })

abbrev pub finish_pam : PamLines → Option (HeaderPnm × Bytes)
finish_pam failed = none
finish_pam out_of_fuel = none
finish_pam (ended f raster) = do h ← check_pam f; some (h, raster)

-- Every line takes a byte, so one round more than there are bytes is enough.
unfoldable pub parse_header_pam : HeaderPnm → Bytes → Option (HeaderPnm × Bytes)
parse_header_pam h cs =
    finish_pam (pam_lines (suc (length cs)) (record { header = h; depth = 3; max_val = 255 }) cs)

module _ (D : Type 0) ⦃d : Arith D⦄ where
  abbrev pub header_of_type : ℕ → HeaderPnm → Bytes → Option (HeaderPnm × Bytes)
  header_of_type type h cs =
      if type == b'5'
      then parse_header_pnm (record h { is_gray = true }) cs
      else if type == b'6'
      then parse_header_pnm (record h { is_gray = false }) cs
      else if type == b'7'
      then parse_header_pam h cs
      else if type == b'F'
      then parse_header_pfm D (record h { is_gray = false }) cs
      else if type == b'f'
      then parse_header_pfm D (record h { is_gray = true }) cs
      else none

  -- The caller has made sure that there are two bytes.
  unfoldable pub parse_header : HeaderPnm → Bytes → Option (HeaderPnm × Bytes)
  parse_header h [] = none
  parse_header h (p ∷ []) = none
  parse_header h (p ∷ type ∷ cs) = if not (p == b'P') then none else header_of_type type h cs
