-- ===== src/Color/Bytes.antt =====
-- src/lib/jxl/color_management.cc: the functions that write into the bytes of an ICC profile.
use ssimulacra2_vulcan.Common.{
  ℕ, zero, suc, ◌+◌, ◌/◌, ◌%◌, ◌^◌, ◌≤◌, ◌≡◌, refl, sym, ap, ◌∙◌, [], ◌∷◌, ◌++◌, length,
  length-append, ltb, ltb-false, false, if◌then◌else◌, Bool-cases, inl, inr, Bytes, arith,
}

-- PaddedBytes::resize(size, 0). Bytes that a resize without a value leaves open are 0 here; each caller writes them next.
unfoldable pub resize_bytes : ℕ → Bytes → Bytes
resize_bytes zero icc = []
resize_bytes (suc n) [] = 0 ∷ resize_bytes n []
resize_bytes (suc n) (x ∷ icc) = x ∷ resize_bytes n icc

-- memcpy of the bytes to a position, which ends inside
unfoldable pub put : ℕ → Bytes → Bytes → Bytes
put zero [] icc = icc
put zero (b ∷ bs) [] = []
put zero (b ∷ bs) (x ∷ icc) = b ∷ put zero bs icc
put (suc pos) bs [] = []
put (suc pos) bs (x ∷ icc) = x ∷ put pos bs icc

-- The bytes at a position, after `if (icc->size() < pos + n) icc->resize(pos + n)`.
unfoldable pub put_grown : ℕ → Bytes → Bytes → Bytes
unfolding resize_bytes put
put_grown pos bs icc =
    put pos bs
      (if ltb (length icc) (pos + length bs) then resize_bytes (pos + length bs) icc else icc)

abbrev pub bytes32 : ℕ → Bytes
bytes32 value = value / 2 ^ 24 % 256 ∷ value / 2 ^ 16 % 256 ∷ value / 2 ^ 8 % 256 ∷ value % 256 ∷ []

abbrev pub bytes16 : ℕ → Bytes
bytes16 value = value / 2 ^ 8 % 256 ∷ value % 256 ∷ []

unfoldable pub write_icc_uint32 : ℕ → ℕ → Bytes → Bytes
write_icc_uint32 value pos icc = put_grown pos (bytes32 value) icc

unfoldable pub write_icc_uint16 : ℕ → ℕ → Bytes → Bytes
write_icc_uint16 value pos icc = put_grown pos (bytes16 value) icc

-- A tag is the four bytes of its name.
unfoldable pub write_icc_tag : Bytes → ℕ → Bytes → Bytes
write_icc_tag name pos icc = put_grown pos name icc

pub length-put : (pos : ℕ) (bs icc : Bytes) → length (put pos bs icc) ≡ length icc
unfolding put
length-put zero [] icc = refl
length-put zero (b ∷ bs) [] = refl
length-put zero (b ∷ bs) (x ∷ icc) = ap suc (length-put zero bs icc)
length-put (suc pos) bs [] = refl
length-put (suc pos) bs (x ∷ icc) = ap suc (length-put pos bs icc)

put_fresh : (bs : Bytes) → put 0 bs (resize_bytes (length bs) []) ≡ bs
unfolding put resize_bytes
put_fresh [] = refl
put_fresh (b ∷ bs) = ap (λ rest. b ∷ rest) (put_fresh bs)

-- What is written at the end is appended.
put_at_end :
    (bs icc : Bytes) (n : ℕ)
    → n ≡ length icc + length bs
    → put (length icc) bs (resize_bytes n icc) ≡ icc ++ bs
unfolding put resize_bytes
put_at_end bs [] n h = let same : n ≡ length bs = omega (arith, h) in rw same (put_fresh bs)
put_at_end bs (x ∷ icc) zero h = absurd (omega arith)
put_at_end bs (x ∷ icc) (suc n) h = ap (λ rest. x ∷ rest) (put_at_end bs icc n (omega (arith, h)))

resize_same : (icc : Bytes) (n : ℕ) → n ≡ length icc → resize_bytes n icc ≡ icc
unfolding resize_bytes
resize_same [] zero h = refl
resize_same [] (suc n) h = absurd (omega arith)
resize_same (x ∷ icc) zero h = absurd (omega arith)
resize_same (x ∷ icc) (suc n) h = ap (λ rest. x ∷ rest) (resize_same icc n (omega (arith, h)))

pub put_grown_end : (bs icc : Bytes) → put_grown (length icc) bs icc ≡ icc ++ bs
unfolding put_grown
put_grown_end bs icc = elim (Bool-cases (ltb (length icc) (length icc + length bs))) [
  | inl grows ↦ rw grows (put_at_end bs icc (length icc + length bs) refl)
  | inr fits ↦
      let whole : length icc ≡ length icc + length bs = ground arith in
      rw fits (
        ap (put (length icc) bs) (sym (resize_same icc (length icc) refl))
        ∙ put_at_end bs icc (length icc) whole)
]

-- What is written inside replaces as many bytes.
pub put_inside :
    (before old new after : Bytes)
    → length new ≡ length old
    → put (length before) new (before ++ (old ++ after)) ≡ before ++ (new ++ after)
unfolding put
put_inside [] [] [] after h = refl
put_inside [] [] (b ∷ new) after h = absurd (omega arith)
put_inside [] (a ∷ old) [] after h = absurd (omega arith)
put_inside [] (a ∷ old) (b ∷ new) after h =
    ap (λ rest. b ∷ rest) (put_inside [] old new after (omega (arith, h)))
put_inside (x ∷ before) old new after h = ap (λ rest. x ∷ rest) (put_inside before old new after h)

length-resize_bytes : (n : ℕ) (icc : Bytes) → length (resize_bytes n icc) ≡ n
unfolding resize_bytes
length-resize_bytes zero icc = refl
length-resize_bytes (suc n) [] = ap suc (length-resize_bytes n [])
length-resize_bytes (suc n) (x ∷ icc) = ap suc (length-resize_bytes n icc)

-- A write never makes the bytes fewer.
pub put_grown_grows : (pos : ℕ) (bs icc : Bytes) → length icc ≤ length (put_grown pos bs icc)
unfolding put_grown
put_grown_grows pos bs icc = elim (Bool-cases (ltb (length icc) (pos + length bs))) [
  | inl grows ↦
      let n = pos + length bs in
      rw grows (ground (arith, length-put pos bs (resize_bytes n icc), length-resize_bytes n icc))
  | inr fits ↦ rw fits (omega (arith, length-put pos bs icc))
]

-- A write that ends inside
pub put_grown_inside :
    (before old new after : Bytes)
    → length new ≡ length old
    → put_grown (length before) new (before ++ (old ++ after)) ≡ before ++ (new ++ after)
unfolding put_grown
put_grown_inside before old new after h =
    let fits : ltb (length (before ++ (old ++ after))) (length before + length new) ≡ false =
      ltb-false (length (before ++ (old ++ after))) (length before + length new)
        (omega (arith, h, length-append before (old ++ after), length-append old after)) in
    rw fits (put_inside before old new after h)
