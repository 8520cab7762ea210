-- ===== src/Color/Padding.antt =====
-- src/lib/jxl/color_management.cc: ICCComputeMD5 pads to whole blocks, and reads inside them.
use ssimulacra2_vulcan.Common.{
  ℕ, zero, suc, ◌+◌, ◌-◌, ◌*◌, ◌/◌, ◌%◌, ◌^◌, ◌≤◌, ◌<◌, ◌≡◌, refl, ap, ◌∷◌, ◌++◌, length,
  length-append, replicate, loop, loop_cong, get_or-append, Bytes, arith,
}
use ssimulacra2_vulcan.Color.Md5.{
  little_bytes, padded, word_index, Words, first_words, word_at, md5_round, md5_block, sum_bytes,
  icc_compute_md5,
}

length-replicate : (n : ℕ) → length {A = ℕ} (replicate n 0) ≡ n
length-replicate zero = refl
length-replicate (suc n) = ap suc (length-replicate n)

length-little_bytes : (n v : ℕ) → length (little_bytes n v) ≡ n
unfolding little_bytes
length-little_bytes zero v = refl
length-little_bytes (suc n) v = ap suc (length-little_bytes n (v / 256))

word_index-bound : (j : ℕ) → j < 64 → word_index j < 16
unfolding word_index
word_index-bound j h = ground arith

length-padded :
    (dat : Bytes) → length (padded dat) ≡ length dat + 1 + (64 - (length dat + 1 + 8) % 64) % 64 + 8
unfolding padded
length-padded dat =
    let extra = (64 - (length dat + 1 + 8) % 64) % 64 in
    let behind : Bytes = 128 ∷ replicate extra 0 in
    omega (
      arith,
      length-append (dat ++ behind) (little_bytes 8 (length dat * 8 % 2 ^ 64)),
      length-append dat behind,
      length-replicate extra,
      length-little_bytes 8 (length dat * 8 % 2 ^ 64),
    )

word_at-append :
    (bytes tail : Bytes) (i : ℕ)
    → i + 3 < length bytes
    → word_at (bytes ++ tail) i ≡ word_at bytes i
unfolding word_at
word_at-append bytes tail i h =
    rw
      (
        get_or-append bytes tail i 0 (omega arith),
        get_or-append bytes tail (i + 1) 0 (omega arith),
        get_or-append bytes tail (i + 2) 0 (omega arith),
        get_or-append bytes tail (i + 3) 0 h,
      )
      refl

md5_round-append :
    (bytes tail : Bytes) (i j : ℕ) (w : Words)
    → i + 64 ≤ length bytes
    → j < 64
    → md5_round (bytes ++ tail) i j w ≡ md5_round bytes i j w
unfolding md5_round
md5_round-append bytes tail i j w h k =
    let small = word_index-bound j k in
    rw (word_at-append bytes tail (i + word_index j * 4) (omega arith)) refl

md5_block-append :
    (bytes tail : Bytes) (block : ℕ) (w : Words)
    → block < length bytes / 64
    → md5_block (bytes ++ tail) block w ≡ md5_block bytes block w
unfolding md5_block
md5_block-append bytes tail block w h =
    ap
      (λ (done : Words). record {
        a = (w.a + done.a) % 2 ^ 32;
        b = (w.b + done.b) % 2 ^ 32;
        c = (w.c + done.c) % 2 ^ 32;
        d = (w.d + done.d) % 2 ^ 32;
      })
      (loop_cong 64 (md5_round (bytes ++ tail) (64 * block)) (md5_round bytes (64 * block)) w
        (λ j u k. md5_round-append bytes tail (64 * block) j u (omega arith) k))

-- Whatever bytes ICCComputeMD5 sums, it pads them to a multiple of 64 with at least 9 and at most 72 more, and its blocks and
-- rounds read inside of the padded bytes only: the sum is the same whatever bytes stand behind them.
pub icc_compute_md5-bounds :
    (dat : Bytes)
    → (length (padded dat) % 64 ≡ 0)
      × (length dat + 9 ≤ length (padded dat))
      × (length (padded dat) ≤ length dat + 72)
      × ((tail : Bytes)
          → sum_bytes (loop (length (padded dat) / 64) (md5_block (padded dat ++ tail)) first_words)
            ≡ icc_compute_md5 dat)
unfolding icc_compute_md5
icc_compute_md5-bounds dat =
    let l = length-padded dat in
    (
      omega (arith, l),
      omega (arith, l),
      omega (arith, l),
      λ tail. ap sum_bytes (
          loop_cong (length (padded dat) / 64) (md5_block (padded dat ++ tail))
            (md5_block (padded dat)) first_words
            (λ block w h. md5_block-append (padded dat) tail block w h)),
    )
