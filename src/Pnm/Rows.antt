-- ===== src/Pnm/Rows.antt =====
-- src/lib/extras/dec/pnm.cc and src/lib/extras/enc/pnm.cc: the loops that copy the rows.
use native.Mathlib.Nat.{mul-le-mul_left, mul_comm}
use ssimulacra2_vulcan.Common.{
  ℕ, zero, suc, ◌+◌, ◌*◌, ◌<◌, ◌≤◌, ◌≡◌, ◌≢◌, ◌⊎◌, refl, Bool, true, false, length, get_or, loop,
  loop_inv, arith, inl, inr, ap, ◌∙◌,
}
use ssimulacra2_vulcan.Pnm.Raster.{memcpy, flip, read_rows}
use ssimulacra2_vulcan.Pnm.Writer.{write_rows, bytes_from}

pub row_end_le : (y n s : ℕ) → y < n → y * s + s ≤ n * s
row_end_le y n s h =
    let all : s * suc y ≤ s * n = mul-le-mul_left s h in
    omega (arith, all, mul_comm s n, mul_comm s y)

memcpy-inside :
    (to from : ℕ → ℕ) (offset n i : ℕ) → i < n → memcpy to offset from n (offset + i) ≡ from i
unfolding memcpy
memcpy-inside to from offset n i h = ground arith

memcpy-below : (to from : ℕ → ℕ) (offset n i : ℕ) → i < offset → memcpy to offset from n i ≡ to i
unfolding memcpy
memcpy-below to from offset n i h = ground arith

memcpy-above :
    (to from : ℕ → ℕ) (offset n i : ℕ) → offset + n ≤ i → memcpy to offset from n i ≡ to i
unfolding memcpy
memcpy-above to from offset n i h = ground arith

memcpy-other_row :
    (to from : ℕ → ℕ) (a b s j : ℕ)
    → a ≢ b
    → j < s
    → memcpy to (a * s) from s (b * s + j) ≡ to (b * s + j)
memcpy-other_row to from a b s j ne h = elim (trichotomy a b) [
  | inl lt ↦ memcpy-above to from (a * s) s (b * s + j) (omega (arith, row_end_le a b s lt))
  | inr (inl eq) ↦ absurd (ne eq)
  | inr (inr gt) ↦ memcpy-below to from (a * s) s (b * s + j) (omega (arith, row_end_le b a s gt))
]
  where
    trichotomy : (m n : ℕ) → (m < n) ⊎ ((m ≡ n) ⊎ (n < m))
    trichotomy m n = ground arith

-- A loop that copies row `from i` to row `to i`, with no two rows to the same place.
copy_rows :
    (to from : ℕ → ℕ) (n s : ℕ) (source out : ℕ → ℕ)
    → ((i k : ℕ) → i < n → k < i → to i ≢ to k)
    → (y j : ℕ) → y < n
    → j < s
    → loop n (λ y mem. memcpy mem (to y * s) (λ i. source (from y * s + i)) s) out (to y * s + j)
      ≡ source (from y * s + j)
copy_rows to from n s source out apart =
    loop_inv copied n body out keep (λ y j h. absurd (omega arith))
  where
    copied : ℕ → (ℕ → ℕ) → Type 0
    copied m mem = (y j : ℕ) → y < m → j < s → mem (to y * s + j) ≡ source (from y * s + j)

    body : ℕ → (ℕ → ℕ) → (ℕ → ℕ)
    body y mem = memcpy mem (to y * s) (λ i. source (from y * s + i)) s

    keep : (i : ℕ) (t : ℕ → ℕ) → i < n → copied i t → copied (suc i) (body i t)
    keep i t lt p y j hy hj = elim (earlier y hy) [
      | inl e ↦ rw e (memcpy-inside t (λ k. source (from i * s + k)) (to i * s) s j hj)
      | inr l ↦
          memcpy-other_row t (λ k. source (from i * s + k)) (to i) (to y) s j (apart i y lt l) hj
          ∙ p y j l hj
    ]
      where
        earlier : (y : ℕ) → y < suc i → (y ≡ i) ⊎ (y < i)
        earlier y h = ground arith

-- Row y of the copy is row flip y of the file.
pub read_rows-row :
    (flipped : Bool) (ysize stride : ℕ) (pos out : ℕ → ℕ) (y j : ℕ)
    → y < ysize
    → j < stride
    → read_rows flipped ysize stride pos out (y * stride + j)
      ≡ pos (flip flipped ysize y * stride + j)
read_rows-row flipped ysize stride pos out =
    unfold read_rows in
    copy_rows (λ y. y) (flip flipped ysize) ysize stride pos out (λ i k h l e. omega arith)

-- Row flip y of the file is row y of the image.
pub write_rows-row :
    (flipped : Bool) (ysize stride : ℕ) (pixels out : ℕ → ℕ) (y j : ℕ)
    → y < ysize
    → j < stride
    → write_rows flipped ysize stride pixels out (flip flipped ysize y * stride + j)
      ≡ pixels (y * stride + j)
write_rows-row flipped ysize stride pixels out =
    unfold write_rows in
    copy_rows (flip flipped ysize) (λ y. y) ysize stride pixels out (apart flipped)
  where
    apart : (f : Bool) (i k : ℕ) → i < ysize → k < i → flip f ysize i ≢ flip f ysize k
    apart true i k h l e = unfold flip in omega arith
    apart false i k h l e = unfold flip in omega arith

pub flip_lt : (flipped : Bool) (ysize y : ℕ) → y < ysize → flip flipped ysize y < ysize
unfolding flip
flip_lt flipped ysize y h = ground arith

pub length-bytes_from : (memory : ℕ → ℕ) (a n : ℕ) → length (bytes_from memory a n) ≡ n
unfolding bytes_from
length-bytes_from memory a zero = refl
length-bytes_from memory a (suc n) = omega (arith, length-bytes_from memory (suc a) n)

pub get_or-bytes_from :
    (memory : ℕ → ℕ) (a n i : ℕ) → i < n → get_or (bytes_from memory a n) i 0 ≡ memory (a + i)
unfolding bytes_from
get_or-bytes_from memory a zero i h = absurd (omega arith)
get_or-bytes_from memory a (suc n) zero h = ap memory (omega arith)
get_or-bytes_from memory a (suc n) (suc i) h =
    get_or-bytes_from memory (suc a) n i (omega arith) ∙ ap memory (omega arith)
