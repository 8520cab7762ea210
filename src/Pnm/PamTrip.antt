-- ===== src/Pnm/PamTrip.antt =====
-- src/lib/extras/enc/pnm.cc and src/lib/extras/dec/pnm.cc: PAM headers.
use ssimulacra2_vulcan.Common.{
  ℕ, suc, ◌^◌, ◌<◌, ◌≤◌, ◌≡◌, refl, Bool, true, false, some, ◌==◌, ◌||◌, arith, ◌∷◌, ◌++◌,
  append_assoc, Bytes, codes, ap, ◌∙◌, if◌then◌else◌, length,
}
use ssimulacra2_vulcan.Arith.{Arith}
use ssimulacra2_vulcan.Pnm.Lexer.{
  is_whitespace, skip_whitespace, skip_single_whitespace, drop_whitespace, drop_comments,
  match_string, after_keyword,
}
use ssimulacra2_vulcan.Pnm.Decimal.{
  to_decimal, EndsNumber, digits-IsNumber, parse_unsigned-to_decimal, skip_whitespace-IsNumber,
}
use ssimulacra2_vulcan.Pnm.Header.{HeaderPnm, empty_header}
use ssimulacra2_vulcan.Pnm.Pam.{
  PamFields, finish_pam, failed, ended, pam_line, pam_lines, tuple_type, check_pam, num_channels,
  set_gray, set_alpha, parse_header_pam, parse_header,
}
use ssimulacra2_vulcan.Pnm.Writer.{greatest_sample, pam_header}
use ssimulacra2_vulcan.Pnm.Depths.{sample_bits-greatest_sample, greatest_sample_lt}

-- ENDHDR is not seen at the start of a line, but only where the line before has taken the line break.
pub end_unseen :
    (fuel : ℕ) (f : PamFields) (rest : Bytes)
    → pam_lines (suc fuel) f (codes "\nENDHDR\n" ++ rest) ≡ failed
unfolding pam_lines pam_line match_string after_keyword skip_whitespace drop_whitespace
    drop_comments
end_unseen fuel f rest = refl

blank_then_number :
    (n : ℕ) (rest : Bytes)
    → skip_whitespace (b' ' ∷ (to_decimal n ++ rest)) ≡ some (to_decimal n ++ rest)
blank_then_number n rest =
    skip_whitespace-IsNumber (b' ') (to_decimal n ++ rest) refl (digits-IsNumber 19 n rest)

line_break_skipped :
    (c : ℕ) (cs : Bytes)
    → (is_whitespace c || c == b'#') ≡ false
    → skip_whitespace (b'\n' ∷ c ∷ cs) ≡ some (c ∷ cs)
unfolding skip_whitespace drop_whitespace drop_comments
line_break_skipped c cs h = ground arith

next_line :
    (fuel : ℕ) (f : PamFields) {g : PamFields} (c : ℕ) (cs : Bytes) {rest : Bytes}
    → (is_whitespace c || c == b'#') ≡ false
    → pam_line f (c ∷ cs) ≡ some (g, rest)
    → pam_lines (suc fuel) f (b'\n' ∷ c ∷ cs) ≡ pam_lines fuel g rest
unfolding pam_lines match_string after_keyword
next_line fuel f c cs h e = rw (pam_lines, line_break_skipped c cs h, e)

pub width_line :
    (fuel : ℕ) (f : PamFields) (n : ℕ) (rest : Bytes)
    → n < 2 ^ 64
    → EndsNumber rest
    → pam_lines (suc fuel) f (codes "\nWIDTH " ++ (to_decimal n ++ rest))
      ≡ pam_lines fuel (record f { header = record (f.header) { xsize = n } }) rest
unfolding pam_line match_string after_keyword
width_line fuel f n rest h e =
    next_line fuel f b'W' (codes "IDTH " ++ (to_decimal n ++ rest)) refl
      (simp (blank_then_number n rest, parse_unsigned-to_decimal n rest h e))

pub height_line :
    (fuel : ℕ) (f : PamFields) (n : ℕ) (rest : Bytes)
    → n < 2 ^ 64
    → EndsNumber rest
    → pam_lines (suc fuel) f (codes "\nHEIGHT " ++ (to_decimal n ++ rest))
      ≡ pam_lines fuel (record f { header = record (f.header) { ysize = n } }) rest
unfolding pam_line match_string after_keyword
height_line fuel f n rest h e =
    next_line fuel f b'H' (codes "EIGHT " ++ (to_decimal n ++ rest)) refl
      (simp (blank_then_number n rest, parse_unsigned-to_decimal n rest h e))

pub depth_line :
    (fuel : ℕ) (f : PamFields) (n : ℕ) (rest : Bytes)
    → n < 2 ^ 64
    → EndsNumber rest
    → pam_lines (suc fuel) f (codes "\nDEPTH " ++ (to_decimal n ++ rest))
      ≡ pam_lines fuel (record f { depth = n }) rest
unfolding pam_line match_string after_keyword
depth_line fuel f n rest h e =
    next_line fuel f b'D' (codes "EPTH " ++ (to_decimal n ++ rest)) refl
      (simp (blank_then_number n rest, parse_unsigned-to_decimal n rest h e))

pub maxval_line :
    (fuel : ℕ) (f : PamFields) (n : ℕ) (rest : Bytes)
    → n < 2 ^ 64
    → EndsNumber rest
    → pam_lines (suc fuel) f (codes "\nMAXVAL " ++ (to_decimal n ++ rest))
      ≡ pam_lines fuel (record f { max_val = n }) rest
unfolding pam_line match_string after_keyword
maxval_line fuel f n rest h e =
    next_line fuel f b'M' (codes "AXVAL " ++ (to_decimal n ++ rest)) refl
      (simp (blank_then_number n rest, parse_unsigned-to_decimal n rest h e))

type_line :
    (fuel : ℕ) (f : PamFields) (is_gray : Bool) (raster : Bytes)
    → pam_lines (suc (suc fuel)) f (
        codes "\nTUPLTYPE "
        ++ (codes (if is_gray then "GRAYSCALE_ALPHA" else "RGB_ALPHA")
            ++ (codes "\nENDHDR\n" ++ raster)))
      ≡ ended (if is_gray then set_gray (set_alpha f) else set_alpha f) raster
unfolding pam_lines pam_line match_string after_keyword skip_whitespace drop_whitespace
    drop_comments tuple_type skip_single_whitespace
type_line fuel f true raster = refl
type_line fuel f false raster = refl

-- The lines of the header, and what follows them.
abbrev type_text : Bool → Bytes → Bytes
type_text is_gray raster =
    codes "\nTUPLTYPE "
    ++ (codes (if is_gray then "GRAYSCALE_ALPHA" else "RGB_ALPHA")
        ++ (codes "\nENDHDR\n" ++ raster))

abbrev maxval_text : Bool → ℕ → Bytes → Bytes
maxval_text is_gray bits raster =
    codes "\nMAXVAL " ++ (to_decimal (greatest_sample bits) ++ type_text is_gray raster)

abbrev depth_text : Bool → ℕ → Bytes → Bytes
depth_text is_gray bits raster =
    codes "\nDEPTH " ++ (to_decimal (if is_gray then 2 else 4) ++ maxval_text is_gray bits raster)

abbrev height_text : Bool → ℕ → ℕ → Bytes → Bytes
height_text is_gray ys bits raster =
    codes "\nHEIGHT " ++ (to_decimal ys ++ depth_text is_gray bits raster)

abbrev pam_text : Bool → ℕ → ℕ → ℕ → Bytes → Bytes
pam_text is_gray xs ys bits raster =
    codes "\nWIDTH " ++ (to_decimal xs ++ height_text is_gray ys bits raster)

pam_header-text :
    (is_gray : Bool) (xs ys bits : ℕ) (raster : Bytes)
    → pam_header is_gray xs ys bits ++ raster ≡ b'P' ∷ b'7' ∷ pam_text is_gray xs ys bits raster
unfolding pam_header
pam_header-text is_gray xs ys bits raster = simp append_assoc

-- The fields behind the lines of a header that is written.
abbrev read_fields : Bool → ℕ → ℕ → ℕ → PamFields
read_fields is_gray xs ys bits = record {
  header = record empty_header { xsize = xs; ysize = ys; is_gray = is_gray; has_alpha = true };
  depth = (if is_gray then 2 else 4);
  max_val = greatest_sample bits;
}

pam_lines-text :
    (fuel : ℕ) (is_gray : Bool) (xs ys bits : ℕ) (raster : Bytes)
    → xs < 2 ^ 64
    → ys < 2 ^ 64
    → pam_lines
        (suc (suc (suc (suc (suc (suc fuel))))))
        (record { header = empty_header; depth = 3; max_val = 255 })
        (pam_text is_gray xs ys bits raster)
      ≡ ended (read_fields is_gray xs ys bits) raster
pam_lines-text fuel is_gray xs ys bits raster hx hy =
    width_line (suc (suc (suc (suc (suc fuel)))))
      (record { header = empty_header; depth = 3; max_val = 255 }) xs
      (height_text is_gray ys bits raster) hx refl
    ∙ height_line (suc (suc (suc (suc fuel)))) _ ys (depth_text is_gray bits raster) hy refl
    ∙ depth_line (suc (suc (suc fuel))) _ (if is_gray then 2 else 4)
        (maxval_text is_gray bits raster) (small is_gray) refl
    ∙ maxval_line (suc (suc fuel)) _ (greatest_sample bits) (type_text is_gray raster)
        (greatest_sample_lt bits) refl
    ∙ type_line fuel (plain is_gray) is_gray raster
    ∙ tuple is_gray
  where
    small : (g : Bool) → (if g then 2 else 4) < 2 ^ 64
    small g = ground arith

    plain : Bool → PamFields
    plain g = record (read_fields g xs ys bits) {
      header = record empty_header { xsize = xs; ysize = ys };
    }

    tuple :
        (g : Bool)
        → ended (if g then set_gray (set_alpha (plain g)) else set_alpha (plain g)) raster
          ≡ ended (read_fields g xs ys bits) raster
    tuple true = refl
    tuple false = refl

-- The header that is read from a PAM file.
unfoldable pub pam_fields : Bool → ℕ → ℕ → ℕ → HeaderPnm
pam_fields is_gray xs ys bits = record {
  xsize = xs;
  ysize = ys;
  is_gray = is_gray;
  has_alpha = true;
  bits_per_sample = bits;
  floating_point = false;
  big_endian = true;
}

check_pam-read_fields :
    (is_gray : Bool) (xs ys bits : ℕ)
    → 1 ≤ bits
    → bits ≤ 16
    → check_pam (read_fields is_gray xs ys bits) ≡ some (pam_fields is_gray xs ys bits)
unfolding check_pam num_channels pam_fields
check_pam-read_fields true xs ys bits h k = rw (sample_bits-greatest_sample bits h k)
check_pam-read_fields false xs ys bits h k = rw (sample_bits-greatest_sample bits h k)

pub parse_header-pam_header :
    (D : Type 0) ⦃d : Arith D⦄ (is_gray : Bool) (xs ys bits : ℕ) (raster : Bytes)
    → xs < 2 ^ 64
    → ys < 2 ^ 64
    → 1 ≤ bits
    → bits ≤ 16
    → parse_header D empty_header (pam_header is_gray xs ys bits ++ raster)
      ≡ some (pam_fields is_gray xs ys bits, raster)
unfolding parse_header parse_header_pam
parse_header-pam_header D is_gray xs ys bits raster hx hy h1 h16 =
    rw (pam_header-text is_gray xs ys bits raster) (
      ap finish_pam (
        pam_lines-text (suc (suc (length (to_decimal xs ++ height_text is_gray ys bits raster))))
          is_gray xs ys bits raster hx hy)
      ∙ finish (check_pam-read_fields is_gray xs ys bits h1 h16))
  where
    finish :
        check_pam (read_fields is_gray xs ys bits) ≡ some (pam_fields is_gray xs ys bits)
        → finish_pam (ended (read_fields is_gray xs ys bits) raster)
          ≡ some (pam_fields is_gray xs ys bits, raster)
    finish e = rw e
