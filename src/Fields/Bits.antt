-- ===== src/Fields/Bits.antt =====
-- A bit stream: what src/lib/jxl/enc_bit_writer.cc (Write) appends and src/lib/jxl/dec_bit_reader.h
-- (ReadBits) takes off, the lowest bit first. Behind the end the reader finds zeros;
-- of a number that stands for a bit it takes the lowest one.
use native.Mathlib.Nat.{pow-suc}
use ssimulacra2_vulcan.Common.{
  ℕ, zero, suc, ◌+◌, ◌*◌, ◌/◌, ◌%◌, ◌^◌, ◌<◌, ◌≡◌, refl, List, [], ◌∷◌, ◌++◌, arith, length, Bool,
  ◌==◌,
}

abbrev pub Bits : Type 0
Bits = List ℕ

unfoldable pub write_bits : ℕ → ℕ → Bits
write_bits zero v = []
write_bits (suc n) v = v % 2 ∷ write_bits n (v / 2)

-- The bits that are left, and how many were read behind the end.
abbrev pub Reader : Type 0
Reader = Bits × ℕ

unfoldable pub read_bits : ℕ → Reader → ℕ × Reader
read_bits zero r = (0, r)
read_bits (suc n) ([], over) = let (v, rest) = read_bits n ([], suc over) in (2 * v, rest)
read_bits (suc n) (b ∷ bits, over) =
    let (v, rest) = read_bits n (bits, over) in (b % 2 + 2 * v, rest)

-- Before any read.
abbrev pub reader : Bits → Reader
reader bits = (bits, 0)

-- AllReadsWithinBounds
unfoldable pub within_bounds : Reader → Bool
within_bounds r = r.1 == 0

-- A number of n bits.
pub read_bits_lt : (n : ℕ) (r : Reader) → (read_bits n r).0 < 2 ^ n
unfolding read_bits
read_bits_lt zero r = omega arith
read_bits_lt (suc n) ([], over) = omega (arith, pow-suc 2 n, read_bits_lt n ([], suc over))
read_bits_lt (suc n) (b ∷ bits, over) = omega (arith, pow-suc 2 n, read_bits_lt n (bits, over))

half_lt : (n v : ℕ) → v < 2 ^ suc n → v / 2 < 2 ^ n
half_lt n v h = omega (arith, pow-suc 2 n)

pub read_bits-write_bits :
    (n v : ℕ) (rest : Bits)
    → v < 2 ^ n
    → read_bits n (reader (write_bits n v ++ rest)) ≡ (v, reader rest)
unfolding read_bits write_bits
read_bits-write_bits zero v rest h = let none_left : v ≡ 0 = omega arith in rw none_left
read_bits-write_bits (suc n) v rest h =
    let sum : v % 2 % 2 + 2 * (v / 2) ≡ v = omega arith in
    rw (read_bits-write_bits n (v / 2) rest (half_lt n v h), sum)

pub length-write_bits : (n v : ℕ) → length (write_bits n v) ≡ n
unfolding write_bits
length-write_bits zero v = refl
length-write_bits (suc n) v = omega (arith, length-write_bits n (v / 2))
