-- ===== src/Color/Md5.antt =====
-- src/lib/jxl/color_management.cc: ICCComputeMD5, the MD5 sum of RFC 1321.
use Prim.Native.Nat.{bit_and, bit_or, bit_xor}
use ssimulacra2_vulcan.Common.{
  ℕ, zero, suc, ◌+◌, ◌-◌, ◌*◌, ◌/◌, ◌%◌, ◌^◌, List, [], ◌∷◌, ◌++◌, length, get_or, replicate, loop,
  ltb, if◌then◌else◌, Bytes,
}

-- The 64-bit number, its lowest byte first.
unfoldable pub little_bytes : ℕ → ℕ → Bytes
little_bytes zero v = []
little_bytes (suc n) v = v % 256 ∷ little_bytes n (v / 256)

-- The data with a bit 1, zeros, and the number of its bits.
unfoldable pub padded : Bytes → Bytes
unfolding little_bytes
padded dat =
    let extra = (64 - (length dat + 1 + 8) % 64) % 64 in
    (dat ++ (128 ∷ replicate extra 0)) ++ little_bytes 8 (length dat * 8 % 2 ^ 64)

abbrev sineparts : List ℕ
sineparts =
    3614090360 ∷ 3905402710 ∷ 606105819 ∷ 3250441966 ∷ 4118548399 ∷ 1200080426 ∷ 2821735955
    ∷ 4249261313 ∷ 1770035416 ∷ 2336552879 ∷ 4294925233 ∷ 2304563134 ∷ 1804603682 ∷ 4254626195
    ∷ 2792965006 ∷ 1236535329 ∷ 4129170786 ∷ 3225465664 ∷ 643717713 ∷ 3921069994 ∷ 3593408605
    ∷ 38016083 ∷ 3634488961 ∷ 3889429448 ∷ 568446438 ∷ 3275163606 ∷ 4107603335 ∷ 1163531501
    ∷ 2850285829 ∷ 4243563512 ∷ 1735328473 ∷ 2368359562 ∷ 4294588738 ∷ 2272392833 ∷ 1839030562
    ∷ 4259657740 ∷ 2763975236 ∷ 1272893353 ∷ 4139469664 ∷ 3200236656 ∷ 681279174 ∷ 3936430074
    ∷ 3572445317 ∷ 76029189 ∷ 3654602809 ∷ 3873151461 ∷ 530742520 ∷ 3299628645 ∷ 4096336452
    ∷ 1126891415 ∷ 2878612391 ∷ 4237533241 ∷ 1700485571 ∷ 2399980690 ∷ 4293915773 ∷ 2240044497
    ∷ 1873313359 ∷ 4264355552 ∷ 2734768916 ∷ 1309151649 ∷ 4149444226 ∷ 3174756917 ∷ 718787259
    ∷ 3951481745 ∷ []

abbrev shifts : List ℕ
shifts =
    7 ∷ 12 ∷ 17 ∷ 22 ∷ 7 ∷ 12 ∷ 17 ∷ 22 ∷ 7 ∷ 12 ∷ 17 ∷ 22 ∷ 7 ∷ 12 ∷ 17 ∷ 22 ∷ 5 ∷ 9 ∷ 14 ∷ 20 ∷ 5
    ∷ 9 ∷ 14 ∷ 20 ∷ 5 ∷ 9 ∷ 14 ∷ 20 ∷ 5 ∷ 9 ∷ 14 ∷ 20 ∷ 4 ∷ 11 ∷ 16 ∷ 23 ∷ 4 ∷ 11 ∷ 16 ∷ 23 ∷ 4 ∷ 11
    ∷ 16 ∷ 23 ∷ 4 ∷ 11 ∷ 16 ∷ 23 ∷ 6 ∷ 10 ∷ 15 ∷ 21 ∷ 6 ∷ 10 ∷ 15 ∷ 21 ∷ 6 ∷ 10 ∷ 15 ∷ 21 ∷ 6 ∷ 10
    ∷ 15 ∷ 21 ∷ []

-- The words a, b, c and d.
pub record Words : Type 0 where
  pub a : ℕ
  pub b : ℕ
  pub c : ℕ
  pub d : ℕ

abbrev flip32 : ℕ → ℕ
flip32 x = 2 ^ 32 - 1 - x

-- f before the sum, in round j.
unfoldable pub mix : ℕ → Words → ℕ
mix j w =
    if ltb j 16
    then bit_or (bit_and (w.b) (w.c)) (bit_and (flip32 (w.b)) (w.d))
    else if ltb j 32
    then bit_or (bit_and (w.d) (w.b)) (bit_and (flip32 (w.d)) (w.c))
    else if ltb j 48
    then bit_xor (bit_xor (w.b) (w.c)) (w.d)
    else bit_xor (w.c) (bit_or (w.b) (flip32 (w.d)))

-- g, the word of the block that round j reads.
unfoldable pub word_index : ℕ → ℕ
word_index j =
    if ltb j 16
    then j
    else if ltb j 32
    then (5 * j + 1) % 16
    else if ltb j 48
    then (3 * j + 5) % 16
    else 7 * j % 16

abbrev byte_at : Bytes → ℕ → ℕ
byte_at bytes i = get_or bytes i 0

-- The four bytes from position i, the lowest first.
unfoldable pub word_at : Bytes → ℕ → ℕ
word_at bytes i =
    bit_or
      (bit_or (bit_or (byte_at bytes i) (byte_at bytes (i + 1) * 2 ^ 8))
        (byte_at bytes (i + 2) * 2 ^ 16))
      (byte_at bytes (i + 3) * 2 ^ 24)

unfoldable pub rotate : ℕ → ℕ → ℕ
rotate f s = bit_or (f * 2 ^ s % 2 ^ 32) (f / 2 ^ (32 - s))

unfoldable pub md5_round : Bytes → ℕ → ℕ → Words → Words
unfolding mix word_index word_at rotate
md5_round data64 i j w =
    let u = word_at data64 (i + word_index j * 4) in
    let f = (mix j w + w.a + get_or sineparts j 0 + u) % 2 ^ 32 in
    record { a = w.d; b = (w.b + rotate f (get_or shifts j 0)) % 2 ^ 32; c = w.b; d = w.c }

unfoldable pub md5_block : Bytes → ℕ → Words → Words
unfolding md5_round loop
md5_block data64 block w =
    let done = loop 64 (md5_round data64 (64 * block)) w in
    record {
      a = (w.a + done.a) % 2 ^ 32;
      b = (w.b + done.b) % 2 ^ 32;
      c = (w.c + done.c) % 2 ^ 32;
      d = (w.d + done.d) % 2 ^ 32;
    }

abbrev pub first_words : Words
first_words = record { a = 1732584193; b = 4023233417; c = 2562383102; d = 271733878 }

-- The 16 bytes of the sum
unfoldable pub sum_bytes : Words → Bytes
unfolding little_bytes
sum_bytes w =
    ((little_bytes 4 (w.a) ++ little_bytes 4 (w.b)) ++ little_bytes 4 (w.c)) ++ little_bytes 4 (w.d)

unfoldable pub icc_compute_md5 : Bytes → Bytes
unfolding padded md5_block sum_bytes
icc_compute_md5 dat =
    let data64 = padded dat in sum_bytes (loop (length data64 / 64) (md5_block data64) first_words)
