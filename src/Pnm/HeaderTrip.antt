-- ===== src/Pnm/HeaderTrip.antt =====
-- src/lib/extras/enc/pnm.cc and src/lib/extras/dec/pnm.cc: a PGM or PPM header that is written is read back.
use ssimulacra2_vulcan.Common.{
  ℕ, ◌^◌, ◌<◌, ◌≤◌, ◌≡◌, refl, Bool, true, false, some, ◌∷◌, ◌++◌, append_assoc, Bytes, ◌>>=◌,
}
use ssimulacra2_vulcan.Arith.{Arith}
use ssimulacra2_vulcan.Pnm.Lexer.{
  is_whitespace, skip_whitespace, skip_single_whitespace, parse_unsigned,
}
use ssimulacra2_vulcan.Pnm.Decimal.{
  to_decimal, EndsNumber, digits-IsNumber, parse_unsigned-to_decimal, skip_whitespace-IsNumber,
}
use ssimulacra2_vulcan.Pnm.Header.{HeaderPnm, empty_header, parse_header_pnm}
use ssimulacra2_vulcan.Pnm.Pam.{parse_header}
use ssimulacra2_vulcan.Pnm.Writer.{greatest_sample, size_lines, pnm_header}
use ssimulacra2_vulcan.Pnm.Depths.{sample_bits-greatest_sample, greatest_sample_lt}

-- A blank and a number are read, up to what follows them.
pub read_number :
    (w n : ℕ) (rest : Bytes)
    → is_whitespace w ≡ true
    → n < 2 ^ 64
    → EndsNumber rest
    → (skip_whitespace (w ∷ (to_decimal n ++ rest)) >>= parse_unsigned) ≡ some (n, rest)
read_number w n rest hw hn he =
    rw (skip_whitespace-IsNumber w (to_decimal n ++ rest) hw (digits-IsNumber 19 n rest))
      (parse_unsigned-to_decimal n rest hn he)

pub size_lines-append :
    (type xs ys : ℕ) (rest : Bytes)
    → size_lines type xs ys ++ rest
      ≡ b'P' ∷ type ∷ b'\n' ∷ (to_decimal xs ++ (b' ' ∷ (to_decimal ys ++ (b'\n' ∷ rest))))
unfolding size_lines
size_lines-append type xs ys rest = simp (append_assoc)

parse_header_pnm-numbers :
    (h : HeaderPnm) (xs ys bits : ℕ) (raster : Bytes)
    → xs < 2 ^ 64
    → ys < 2 ^ 64
    → 1 ≤ bits
    → bits ≤ 16
    → parse_header_pnm h (
        b'\n'
        ∷ (to_decimal xs
            ++ (b' '
                ∷ (to_decimal ys
                    ++ (b'\n' ∷ (to_decimal (greatest_sample bits) ++ (b'\n' ∷ raster)))))))
      ≡ some (
        record h {
          xsize = xs;
          ysize = ys;
          bits_per_sample = bits;
          floating_point = false;
          big_endian = true;
        },
        raster,
      )
unfolding parse_header_pnm skip_single_whitespace
parse_header_pnm-numbers h xs ys bits raster hx hy h1 h16 =
    let last = b'\n' ∷ raster in
    let value = b'\n' ∷ (to_decimal (greatest_sample bits) ++ last) in
    simp (
      read_number (b'\n') xs (b' ' ∷ (to_decimal ys ++ value)) refl hx refl,
      read_number (b' ') ys value refl hy refl,
      read_number (b'\n') (greatest_sample bits) last refl (greatest_sample_lt bits) refl,
      sample_bits-greatest_sample bits h1 h16,
    )

-- What is known of a header that was read from PGM or PPM.
unfoldable pub pnm_fields : Bool → ℕ → ℕ → ℕ → HeaderPnm
pnm_fields is_gray xs ys bits = record {
  xsize = xs;
  ysize = ys;
  is_gray = is_gray;
  has_alpha = false;
  bits_per_sample = bits;
  floating_point = false;
  big_endian = true;
}

pub parse_header-pnm_header :
    (D : Type 0) ⦃d : Arith D⦄ (is_gray : Bool) (xs ys bits : ℕ) (raster : Bytes)
    → xs < 2 ^ 64
    → ys < 2 ^ 64
    → 1 ≤ bits
    → bits ≤ 16
    → parse_header D empty_header (pnm_header is_gray xs ys bits ++ raster)
      ≡ some (pnm_fields is_gray xs ys bits, raster)
unfolding pnm_header pnm_fields parse_header
parse_header-pnm_header D true xs ys bits raster hx hy h1 h16 = simp (
  append_assoc,
  size_lines-append,
  parse_header_pnm-numbers (record empty_header { is_gray = true }) xs ys bits raster hx hy h1 h16,
)
parse_header-pnm_header D false xs ys bits raster hx hy h1 h16 = simp (
  append_assoc,
  size_lines-append,
  parse_header_pnm-numbers (record empty_header { is_gray = false }) xs ys bits raster hx hy h1 h16,
)
