-- ===== src/Fields/Selector.antt =====
-- src/lib/jxl/field_encodings.h (U32Distr) and src/lib/jxl/fields.cc (U32Coder): a 32-bit number behind a
-- selector of two bits, which names one of four distributions.
use ssimulacra2_vulcan.Common.{
  ℕ, suc, ◌+◌, ◌-◌, ◌*◌, ◌/◌, ◌%◌, ◌^◌, ◌<◌, ◌≤◌, ◌≡◌, ◌⊎◌, inl, inr, refl, List, [], ◌∷◌, ◌++◌,
  arith, length, append_assoc, length-append, ltb, leb, ◌==◌, if◌then◌else◌, Bool, true, false,
  ◌||◌, Bool-cases, ap, ◌∙◌, Option, none, some, ◌>>=◌, get_or, max, some-eq, bind-eq-some, subst,
}
use ssimulacra2_vulcan.Fields.Bits.{
  Bits, Reader, reader, write_bits, read_bits, read_bits-write_bits, length-write_bits,
}

-- A distribution is a word of 32 bits; the highest one says that it is a single value.
unfoldable pub is_direct : ℕ → Bool
is_direct d = leb (2 ^ 31) (d % 2 ^ 32)

unfoldable pub direct : ℕ → ℕ
direct d = d % 2 ^ 31

unfoldable pub extra_bits : ℕ → ℕ
extra_bits d = d % 32 + 1

unfoldable pub offset : ℕ → ℕ
offset d = d / 32 % 2 ^ 26

-- Val and BitsOffset
unfoldable pub val : ℕ → ℕ
val value = value % 2 ^ 31 + 2 ^ 31

unfoldable pub bits_offset : ℕ → ℕ → ℕ
bits_offset bits off = (bits - 1) % 32 + off % 2 ^ 26 * 32

unfoldable pub is_outside : ℕ → ℕ → Bool
is_outside d value = ltb value (offset d) || leb (offset d + 2 ^ extra_bits d) value

-- The loop of ChooseSelector from the selector s on, with the best choice so far and its bits.
unfoldable pub choose_from : List ℕ → ℕ → ℕ → ℕ → ℕ → ℕ × ℕ
choose_from [] s value selector total_bits = (selector, total_bits)
choose_from (d ∷ ds) s value selector total_bits =
    let skip = choose_from ds (suc s) value selector total_bits in
    let take = choose_from ds (suc s) value s (2 + extra_bits d) in
    if is_direct d
    then (if direct d == value then (s, 2) else skip)
    else if is_outside d value
    then skip
    else if ltb (2 + extra_bits d) total_bits
    then take
    else skip

-- `none` when no selector is feasible.
unfoldable pub choose_selector : List ℕ → ℕ → Option (ℕ × ℕ)
choose_selector enc value =
    let chosen = choose_from enc 0 value 0 64 in if chosen.1 == 64 then none else some chosen

unfoldable pub payload : ℕ → ℕ → ℕ → Bits
payload d total_bits value =
    if is_direct d then [] else write_bits (total_bits - 2) (value - offset d)

unfoldable pub write_u32 : List ℕ → ℕ → Option Bits
write_u32 enc value = do
  chosen ← choose_selector enc value
  some (write_bits 2 (chosen.0) ++ payload (get_or enc (chosen.0) 0) (chosen.1) value)

unfoldable pub read_u32 : List ℕ → Reader → ℕ × Reader
read_u32 enc bits =
    let (selector, b1) = read_bits 2 bits in
    let d = get_or enc selector 0 in
    let (v, b2) = read_bits (extra_bits d) b1 in
    if is_direct d then (direct d, b1) else ((v + offset d) % 2 ^ 32, b2)

-- The two selector bits, and the most bits of a distribution.
unfoldable pub max_encoded_bits : List ℕ → ℕ
max_encoded_bits [] = 2
max_encoded_bits (d ∷ ds) =
    let rest = max_encoded_bits ds in if is_direct d then rest else max rest (2 + extra_bits d)

-- A distribution that has the value, in so many bits.
Encodes : ℕ → ℕ → ℕ → Type 0
Encodes d value total =
    ((is_direct d ≡ true) × (direct d ≡ value) × (total ≡ 2))
    ⊎ ((is_direct d ≡ false)
        × (offset d ≤ value)
        × (value < offset d + 2 ^ extra_bits d)
        × (total ≡ 2 + extra_bits d))

IsChosen : List ℕ → ℕ → ℕ × ℕ → Type 0
IsChosen enc value (selector, total) =
    (total ≡ 64) ⊎ ((selector < length enc) × Encodes (get_or enc selector 0) value total)

choose_from-IsChosen :
    (enc ds : List ℕ) (s value selector total : ℕ)
    → s + length ds ≡ length enc
    → ((k : ℕ) → get_or enc (s + k) 0 ≡ get_or ds k 0)
    → IsChosen enc value (selector, total)
    → IsChosen enc value (choose_from ds s value selector total)
unfolding choose_from
choose_from-IsChosen enc [] s value selector total hl look h = h
choose_from-IsChosen enc (d ∷ ds) s value selector total hl look h =
    let here : get_or enc s 0 ≡ d = ap (λ i. get_or enc i 0) (omega arith) ∙ look 0 in
    let look' : (k : ℕ) → get_or enc (suc s + k) 0 ≡ get_or ds k 0 =
      λ k. ap (λ i. get_or enc i 0) (omega arith) ∙ look (suc k) in
    let skip = choose_from-IsChosen enc ds (suc s) value selector total (omega arith) look' in
    elim (Bool-cases (is_direct d)) [
      | inl dir ↦ elim (Bool-cases (direct d == value)) [
        | inl e ↦
            rw (dir, e)
              (unfold IsChosen Encodes in
                inr (omega arith, rw here (inl (dir, ground arith, refl))))
        | inr e ↦ rw (dir, e) (skip h)
      ]
      | inr ranged ↦ elim (Bool-cases (is_outside d value)) [
        | inl e ↦ rw (ranged, e) (skip h)
        | inr inside ↦ elim (Bool-cases (ltb (2 + extra_bits d) total)) [
          | inl e ↦
              rw (ranged, inside, e)
                (choose_from-IsChosen enc ds (suc s) value s (2 + extra_bits d) (omega arith) look'
                  (unfold IsChosen Encodes is_outside in
                    inr (omega arith, rw here (inr (ranged, ground arith, ground arith, refl)))))
          | inr e ↦ rw (ranged, inside, e) (skip h)
        ]
      ]
    ]

chosen-Encodes :
    (enc : List ℕ) (value selector total : ℕ)
    → choose_selector enc value ≡ some (selector, total)
    → (selector < length enc) × Encodes (get_or enc selector 0) value total
unfolding IsChosen
chosen-Encodes enc value selector total e =
    from_chosen (choose_from enc 0 value 0 64)
      (choose_from-IsChosen enc enc 0 value 0 64 (omega arith)
        (λ k. ap (λ i. get_or enc i 0) (omega arith)) (inl refl))
      (unfold choose_selector in e)
  where
    from_chosen :
        (c : ℕ × ℕ)
        → IsChosen enc value c
        → (if c.1 == 64 then none else some c) ≡ some (selector, total)
        → (selector < length enc) × Encodes (get_or enc selector 0) value total
    from_chosen (s, t) (inl none_found) h = absurd (ground arith)
    from_chosen (s, t) (inr found) h = elim (Bool-cases (t == 64)) [
      | inl full ↦ absurd (ground arith)
      | inr some_found ↦
          let same : (s, t) ≡ (selector, total) = some-eq (rw some_found at h) in
          subst (λ (c : ℕ × ℕ). (c.0 < length enc) × Encodes (get_or enc (c.0) 0) value (c.1)) same
            found
    ]

encoded_back :
    (d value total : ℕ) (rest : Bits)
    → value < 2 ^ 32
    → Encodes d value total
    → ((is_direct d ≡ true) × (payload d total value ≡ []) × (direct d ≡ value))
      ⊎ ((is_direct d ≡ false)
          × (read_bits (extra_bits d) (reader (payload d total value ++ rest))
              ≡ (value - offset d, reader rest))
          × ((value - offset d + offset d) % 2 ^ 32 ≡ value))
unfolding Encodes payload
encoded_back d value total rest hv (inl (dir, e, t)) = inl (dir, rw dir, e)
encoded_back d value total rest hv (inr (ranged, low, high, t)) =
    let bits : total - 2 ≡ extra_bits d = omega (arith, t) in
    inr (
      ranged,
      rw (ranged, bits) (read_bits-write_bits (extra_bits d) (value - offset d) rest (omega arith)),
      omega arith,
    )

written :
    (enc : List ℕ) (value : ℕ) (bits : Bits)
    → write_u32 enc value ≡ some bits
    → (c : ℕ × ℕ) × (choose_selector enc value ≡ some c)
      × (some (write_bits 2 (c.0) ++ payload (get_or enc (c.0) 0) (c.1) value) ≡ some bits)
unfolding write_u32
written enc value bits e = bind-eq-some (choose_selector enc value) _ e

-- With four distributions, a number below 2 ^ 32 that Write accepts is what Read reads, up to what
-- follows it.
pub read_u32-write_u32 :
    (enc : List ℕ) (value : ℕ) (bits rest : Bits)
    → length enc ≡ 4
    → value < 2 ^ 32
    → write_u32 enc value ≡ some bits
    → read_u32 enc (reader (bits ++ rest)) ≡ (value, reader rest)
read_u32-write_u32 enc value bits rest hl hv e =
    let ((selector, total), c, made) = written enc value bits e in
    let (low, encodes) = chosen-Encodes enc value selector total c in
    let d = get_or enc selector 0 in
    let exact : write_bits 2 selector ++ payload d total value ≡ bits = some-eq made in
    rw (← exact, append_assoc (write_bits 2 selector) (payload d total value) rest)
      (unfold read_u32 in
        rw (read_bits-write_bits 2 selector (payload d total value ++ rest) (omega arith))
          (elim (encoded_back d value total rest hv encodes) [
            | inl (dir, none_left, same) ↦ rw (dir, none_left, same)
            | inr (ranged, read, back) ↦ rw (ranged, read, back)
          ]))

payload_size :
    (d value total : ℕ) → Encodes d value total → 2 + length (payload d total value) ≡ total
unfolding Encodes payload
payload_size d value total (inl (dir, e, t)) = rw dir (omega (arith, t))
payload_size d value total (inr (ranged, low, high, t)) =
    rw ranged (omega (arith, t, length-write_bits (total - 2) (value - offset d)))

-- What CanEncode counts is written.
pub write_u32-size :
    (enc : List ℕ) (value selector total : ℕ)
    → choose_selector enc value ≡ some (selector, total)
    → (bits : Bits) × (write_u32 enc value ≡ some bits) × (length bits ≡ total)
unfolding write_u32
write_u32-size enc value selector total e =
    let (low, encodes) = chosen-Encodes enc value selector total e in
    let d = get_or enc selector 0 in
    (
      write_bits 2 selector ++ payload d total value,
      rw e,
      omega (
        arith,
        length-append (write_bits 2 selector) (payload d total value),
        length-write_bits 2 selector,
        payload_size d value total encodes,
      ),
    )
