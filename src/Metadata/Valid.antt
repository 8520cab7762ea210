-- ===== src/Metadata/Valid.antt =====
-- src/lib/jxl/image_metadata.cc: what Bundle::Read returns is in the ranges that the headers promise, whatever the bits are.
use ssimulacra2_vulcan.Common.{
  ℕ, zero, suc, ◌+◌, ◌%◌, ◌^◌, ◌≤◌, ◌<◌, [], ◌∷◌, get_or, if◌then◌else◌, ◌≡◌, ◌⊎◌, inl, inr, refl,
  Bool, true, false, not, ◌&&◌, ◌||◌, ltb, leb, ◌==◌, Bool-cases, arith,
}
use ssimulacra2_vulcan.Fields.Visit.{
  Visit, done, failure, number, conditional, all_default, is_reading, extensions, end_extensions,
  ◌>>=◌, ◌>>◌, check,
}
use ssimulacra2_vulcan.Fields.Visitors.{set_default}
use ssimulacra2_vulcan.Metadata.Always.{Always, IsRead}
use ssimulacra2_vulcan.Fields.Bits.{Reader, read_bits, read_bits_lt}
use ssimulacra2_vulcan.Fields.Selector.{
  val, bits_offset, is_direct, direct, extra_bits, offset, read_u32,
}
use ssimulacra2_vulcan.Metadata.Bundles.{
  BitDepth, visit_bit_depth, visit_samples, mantissa_bits, integer_coder, visit_all_default,
  or_failure,
}

-- A bit depth as BitDepth documents it, and as its check leaves it: 1 to 31 bits of an integer, or a float whose exponent has 2 to 8 bits and whose
-- mantissa has 2 to 23.
abbrev pub IsDepth : BitDepth → Type 0
IsDepth h =
    ((h.floating_point_sample ≡ true)
      × (2 ≤ h.exponent_bits_per_sample)
      × (h.exponent_bits_per_sample ≤ 8)
      × (2 ≤ mantissa_bits (h.bits_per_sample) (h.exponent_bits_per_sample))
      × (mantissa_bits (h.bits_per_sample) (h.exponent_bits_per_sample) ≤ 23))
    ⊎ ((h.floating_point_sample ≡ false)
        × (1 ≤ h.bits_per_sample)
        × (h.bits_per_sample ≤ 31)
        × (h.exponent_bits_per_sample ≡ 0))

-- A statement, and what follows it.
pub Always-bind :
    {A B : Type 0} (P : A → Type 0) (Q : B → Type 0) (t : Visit A) (f : A → Visit B)
    → Always P t
    → ((a : A) → P a → Always Q (f a))
    → Always Q (t >>= f)
unfolding Always ◌>>=◌
Always-bind P Q (done a) f h g = g a h
Always-bind P Q failure f h g = tt
Always-bind P Q (number c d v k) f h g = λ w got. Always-bind P Q (k w) f (h w got) g
Always-bind P Q (conditional b k) f h g = Always-bind P Q (k b) f h g
Always-bind P Q (all_default a b k) f h g =
    λ now skip. Always-bind P Q (k now skip) f (h now skip) g
Always-bind P Q (is_reading k) f h g = Always-bind P Q (k true) f h g
Always-bind P Q (extensions e k) f h g = λ w. Always-bind P Q (k w) f (h w) g
Always-bind P Q (end_extensions t) f h g = Always-bind P Q t f h g

pub Always-check :
    {A : Type 0} (P : A → Type 0) (b : Bool) (k : Visit A)
    → (b ≡ true → Always P k)
    → Always P (check b >> k)
unfolding Always ◌>>=◌
Always-check P true k h = h refl
Always-check P false k h = tt

-- A bundle with a field all_default: what its defaults and its fields have.
pub Always-all_default :
    {A : Type 0} (P : A → Type 0) (near : ℕ → ℕ → Bool) (mark : Bool) (with_mark : Bool → A)
    (rest : Bool → Visit A)
    → ((now : Bool) → Always P (or_failure (set_default (rest now))))
    → ((now : Bool) → Always P (rest now))
    → Always P (visit_all_default near mark with_mark rest)
unfolding Always visit_all_default
Always-all_default P near mark with_mark rest defaults fields = λ now skip. elim (Bool-cases skip) [
  | inl hit ↦ rw hit (defaults now)
  | inr miss ↦ rw miss (fields now)
]

-- The selector is one of four, and no distribution has 0.
integer_depth_read :
    (selector : ℕ) (b : Reader)
    → selector < 4
    → let d = get_or (val 8 ∷ val 10 ∷ val 12 ∷ bits_offset 6 1 ∷ []) selector 0 in
      1 ≤ (if is_direct d then direct d else ((read_bits (extra_bits d) b).0 + offset d) % 2 ^ 32)
unfolding val bits_offset is_direct direct extra_bits offset
integer_depth_read zero b h = omega arith
integer_depth_read (suc zero) b h = omega arith
integer_depth_read (suc (suc zero)) b h = omega arith
integer_depth_read (suc (suc (suc zero))) b h = omega (arith, read_bits_lt 6 b)
integer_depth_read (suc (suc (suc (suc n)))) b h = absurd (omega arith)

integer_depth_positive : (depth : ℕ) → IsRead integer_coder depth → 1 ≤ depth
unfolding IsRead read_u32
integer_depth_positive depth (r, e) =
    let positive = integer_depth_read ((read_bits 2 r).0) ((read_bits 2 r).1) (read_bits_lt 2 r) in
    ground arith

samples-IsDepth : (h : BitDepth) (floating : Bool) → Always IsDepth (visit_samples h floating)
unfolding Always visit_samples ◌>>=◌
samples-IsDepth h true = λ depth read less read'.
    let e = (less + 1) % 2 ^ 32 in
    Always-check IsDepth (not (ltb e 2 || ltb 8 e)) _ (λ h'.
      Always-check IsDepth (leb 2 (mantissa_bits depth e) && leb (mantissa_bits depth e) 23) _
        (λ h''. inl (refl, ground arith, ground arith, ground arith, ground arith)))
samples-IsDepth h false = λ depth read.
    Always-check IsDepth (not (ltb 31 depth)) _
      (λ h'. inr (refl, integer_depth_positive depth read, ground arith, refl))

pub bit_depth-IsDepth : (h : BitDepth) → Always IsDepth (visit_bit_depth h)
unfolding Always visit_bit_depth ◌>>=◌
bit_depth-IsDepth h = λ w got. samples-IsDepth h (w == 1)

-- Nothing is asked.
pub Always-any : {A : Type 0} (t : Visit A) → Always (λ a. Unit {0}) t
unfolding Always
Always-any (done a) = tt
Always-any failure = tt
Always-any (number c d v k) = λ w got. Always-any (k w)
Always-any (conditional b k) = Always-any (k b)
Always-any (all_default a b k) = λ now skip. Always-any (k now skip)
Always-any (is_reading k) = Always-any (k true)
Always-any (extensions e k) = λ w. Always-any (k w)
Always-any (end_extensions t) = Always-any t

pub Always-next :
    {A B : Type 0} (Q : B → Type 0) (t : Visit A) (f : A → Visit B)
    → ((a : A) → Always Q (f a))
    → Always Q (t >>= f)
Always-next Q t f g = Always-bind (λ a. Unit {0}) Q t f (Always-any t) (λ a u. g a)

pub Always-map :
    {A : Type 0} (P Q : A → Type 0) (t : Visit A) → ((a : A) → P a → Q a) → Always P t → Always Q t
unfolding Always
Always-map P Q (done a) g h = g a h
Always-map P Q failure g h = tt
Always-map P Q (number c d v k) g h = λ w got. Always-map P Q (k w) g (h w got)
Always-map P Q (conditional b k) g h = Always-map P Q (k b) g h
Always-map P Q (all_default a b k) g h = λ now skip. Always-map P Q (k now skip) g (h now skip)
Always-map P Q (is_reading k) g h = Always-map P Q (k true) g h
Always-map P Q (extensions e k) g h = λ w. Always-map P Q (k w) g (h w)
Always-map P Q (end_extensions t) g h = Always-map P Q t g h
