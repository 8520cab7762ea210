-- ===== src/Pnm/Depths.antt =====
-- src/lib/extras/dec/pnm.cc: the greatest sample values that give a number of bits.
use ssimulacra2_vulcan.Common.{
  ℕ, zero, suc, ◌^◌, ◌<◌, ◌≤◌, ◌≡◌, ◌⊎◌, refl, Bool, true, false, ◌&&◌, Option, none, some, ◌==◌,
  arith, inl, inr,
}
use ssimulacra2_vulcan.Pnm.Header.{floor_log2_nonzero, sample_bits}
use ssimulacra2_vulcan.Pnm.Writer.{greatest_sample}

is_bits : Option ℕ → ℕ → Bool
is_bits none b = false
is_bits (some a) b = a == b

all_below : ℕ → (ℕ → Bool) → Bool
all_below zero p = true
all_below (suc n) p = p n && all_below n p

all_below-elim : (n : ℕ) (p : ℕ → Bool) (i : ℕ) → all_below n p ≡ true → i < n → p i ≡ true
unfolding all_below
all_below-elim zero p i h lt = absurd (omega arith)
all_below-elim (suc n) p i h lt = elim (latest i n lt) [
  | inl e ↦ rw e (ground arith)
  | inr l ↦ all_below-elim n p i (ground arith) l
]
  where
    latest : (i n : ℕ) → i < suc n → (i ≡ n) ⊎ (i < n)
    latest i n h = ground arith

every_depth : all_below 16 (λ i. is_bits (sample_bits (greatest_sample (suc i))) (suc i)) ≡ true
unfolding all_below is_bits sample_bits floor_log2_nonzero greatest_sample
every_depth = refl

-- Samples of 1 to 16 bits are recognised by their greatest value.
pub sample_bits-greatest_sample :
    (bits : ℕ) → 1 ≤ bits → bits ≤ 16 → sample_bits (greatest_sample bits) ≡ some bits
sample_bits-greatest_sample zero h k = absurd (omega arith)
sample_bits-greatest_sample (suc i) h k = is_bits-elim (sample_bits (greatest_sample (suc i))) (
    all_below-elim 16 (λ i. is_bits (sample_bits (greatest_sample (suc i))) (suc i)) i every_depth
      (omega arith))
  where
    is_bits-elim : (o : Option ℕ) → is_bits o (suc i) ≡ true → o ≡ some (suc i)
    is_bits-elim none e = unfold is_bits in ground arith
    is_bits-elim (some a) e = unfold is_bits in ground arith

pub greatest_sample_lt : (bits : ℕ) → greatest_sample bits < 2 ^ 64
unfolding greatest_sample
greatest_sample_lt bits = omega arith
