-- ===== src/Fields/MaxBits.antt =====
-- src/lib/jxl/fields.cc and src/lib/jxl/fields.h: MaxEncodedBits of the coders.
use ssimulacra2_vulcan.Common.{
  ℕ, zero, suc, ◌+◌, ◌*◌, ◌/◌, ◌^◌, ◌≤◌, ◌≡◌, ◌⊎◌, inl, inr, refl, Bool-cases, List, [], ◌∷◌, some,
  ltb, leb, ◌==◌, arith, ap, some-eq, bind-eq-some,
}
use ssimulacra2_vulcan.Fields.VarInt.{groups_size, u64_size}
use ssimulacra2_vulcan.Fields.Selector.{choose_from, choose_selector, max_encoded_bits, extra_bits}
use ssimulacra2_vulcan.Fields.Half.{can_encode_f16}
use ssimulacra2_vulcan.Fields.Coder.{Coder, bits, u32, u64, f16, value_size, max_size}

groups_size-bound : (n v : ℕ) → groups_size n v ≤ n * 9 + 5
unfolding groups_size
groups_size-bound zero v = ground arith
groups_size-bound (suc n) v =
    let rest = groups_size-bound n (v / 256) in
    elim (Bool-cases (ltb 0 v)) [
      | inl more ↦ rw more (omega (arith, rest))
      | inr last ↦ rw last (omega arith)
    ]

u64_size-bound : (v : ℕ) → u64_size v ≤ 2 + 12 + 6 * (8 + 1) + (4 + 1)
unfolding u64_size
u64_size-bound v = let groups = groups_size-bound 6 (v / 4096) in ground arith

selector_bits : (ds : List ℕ) → 2 ≤ max_encoded_bits ds
unfolding max_encoded_bits
selector_bits [] = omega arith
selector_bits (d ∷ ds) = let rest = selector_bits ds in ground arith

-- The best choice is the one so far, or one of the distributions.
choose_from-bound :
    (ds : List ℕ) (s v selector total : ℕ)
    → let chosen = (choose_from ds s v selector total).1 in
      (chosen ≡ total) ⊎ (chosen ≤ max_encoded_bits ds)
unfolding choose_from max_encoded_bits
choose_from-bound [] s v selector total = inl refl
choose_from-bound (d ∷ ds) s v selector total =
    let low = selector_bits ds in
    let skip = choose_from-bound ds (suc s) v selector total in
    let take = choose_from-bound ds (suc s) v s (2 + extra_bits d) in ground arith

choose_selector-bound :
    (enc : List ℕ) (v selector total : ℕ)
    → choose_selector enc v ≡ some (selector, total)
    → total ≤ max_encoded_bits enc
unfolding choose_selector
choose_selector-bound enc v selector total e =
    let chosen = choose_from enc 0 v 0 64 in
    elim (Bool-cases (chosen.1 == 64)) [
      | inl none_fits ↦ absurd (ground arith)
      | inr fits ↦
          let same : chosen ≡ (selector, total) = some-eq (rw fits at e) in
          let bits_eq : chosen.1 ≡ total = ap (λ (p : ℕ × ℕ). p.1) same in
          elim (choose_from-bound enc 0 v 0 64) [
            | inl start ↦ absurd (ground arith)
            | inr bound ↦ omega (arith, bound, bits_eq)
          ]
    ]

-- What CanEncode counts for a value is at most what MaxEncodedBits promises, for each of the four coders.
pub value_size-max_size : (c : Coder) (v n : ℕ) → value_size c v ≡ some n → n ≤ max_size c
unfolding value_size max_size
value_size-max_size (bits k) v n e = elim (Bool-cases (leb (2 ^ k) v)) [
  | inl large ↦ absurd (ground arith)
  | inr small ↦ let size : k ≡ n = some-eq (rw small at e) in omega (arith, size)
]
value_size-max_size (u32 enc) v n e =
    let ((selector, total), c, size) = bind-eq-some (choose_selector enc v) _ e in
    let total_eq : total ≡ n = some-eq size in
    omega (arith, total_eq, choose_selector-bound enc v selector total c)
value_size-max_size u64 v n e =
    let size : u64_size v ≡ n = some-eq e in omega (arith, size, u64_size-bound v)
value_size-max_size f16 v n e = elim (Bool-cases (can_encode_f16 v)) [
  | inl fine ↦ let size : 16 ≡ n = some-eq (rw fine at e) in omega (arith, size)
  | inr bad ↦ absurd (ground arith)
]
