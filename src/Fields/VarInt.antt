-- ===== src/Fields/VarInt.antt =====
-- src/lib/jxl/fields.cc: U64Coder, a 64-bit number in 2 to 73 bits.
use native.Mathlib.Nat.{pow-suc, add-mul, mul_assoc}
use ssimulacra2_vulcan.Common.{
  ℕ, zero, suc, ◌+◌, ◌-◌, ◌*◌, ◌/◌, ◌%◌, ◌^◌, ◌<◌, ◌≡◌, refl, ◌++◌, arith, length, append_assoc,
  ltb, leb, ◌==◌, if◌then◌else◌, Bool-cases, inl, inr, ap, ◌∙◌, length-append,
}
use ssimulacra2_vulcan.Fields.Bits.{
  Bits, Reader, reader, write_bits, read_bits, read_bits-write_bits, length-write_bits,
}

-- The groups of eight bits behind the first twelve, and the four last ones: `n` more groups fit before
-- the shift is 60.
unfoldable pub write_groups : ℕ → ℕ → Bits
write_groups zero v = if ltb 0 v then write_bits 1 1 ++ write_bits 4 (v % 16) else write_bits 1 0
write_groups (suc n) v =
    let rest = write_groups n (v / 256) in
    if ltb 0 v then write_bits 1 1 ++ (write_bits 8 (v % 256) ++ rest) else write_bits 1 0

unfoldable pub write_u64 : ℕ → Bits
write_u64 v =
    if v == 0
    then write_bits 2 0
    else if leb v 16
    then write_bits 2 1 ++ write_bits 4 (v - 1)
    else if leb v 272
    then write_bits 2 2 ++ write_bits 8 (v - 17)
    else write_bits 2 3 ++ (write_bits 12 (v % 4096) ++ write_groups 6 (v / 4096))

-- The loop of Read. The groups do not overlap, so `|=` adds.
unfoldable pub read_groups : ℕ → ℕ → ℕ → Reader → ℕ × Reader
read_groups zero shift result bits =
    let (more, b1) = read_bits 1 bits in
    let (group, b2) = read_bits 4 b1 in
    if more == 0 then (result, b1) else (result + group * 2 ^ shift, b2)
read_groups (suc n) shift result bits =
    let (more, b1) = read_bits 1 bits in
    let (group, b2) = read_bits 8 b1 in
    let rest = read_groups n (shift + 8) (result + group * 2 ^ shift) b2 in
    if more == 0 then (result, b1) else rest

unfoldable pub read_u64 : Reader → ℕ × Reader
read_u64 bits =
    let (selector, b1) = read_bits 2 bits in
    let (group4, b4) = read_bits 4 b1 in
    let (group8, b8) = read_bits 8 b1 in
    let (group12, b12) = read_bits 12 b1 in
    if selector == 0
    then (0, b1)
    else if selector == 1
    then (1 + group4, b4)
    else if selector == 2
    then (17 + group8, b8)
    else read_groups 6 12 group12 b12

-- The number of bits, as CanEncode counts them.
unfoldable pub groups_size : ℕ → ℕ → ℕ
groups_size zero v = if ltb 0 v then 1 + 4 else 1
groups_size (suc n) v = let rest = groups_size n (v / 256) in if ltb 0 v then 1 + 8 + rest else 1

unfoldable pub u64_size : ℕ → ℕ
u64_size v =
    if v == 0
    then 2
    else if leb v 16
    then 2 + 4
    else if leb v 272
    then 2 + 8
    else 2 + 12 + groups_size 6 (v / 4096)

length-write_groups : (n v : ℕ) → length (write_groups n v) ≡ groups_size n v
unfolding write_groups groups_size
length-write_groups zero v = elim (Bool-cases (ltb 0 v)) [
  | inl e ↦ rw e (simp (length-append, length-write_bits) refl)
  | inr e ↦ rw e (length-write_bits 1 0)
]
length-write_groups (suc n) v = elim (Bool-cases (ltb 0 v)) [
  | inl e ↦
      rw e (simp (length-append, length-write_bits, length-write_groups n (v / 256)) (omega arith))
  | inr e ↦ rw e (length-write_bits 1 0)
]

pow_eight : (s : ℕ) → 2 ^ (s + 8) ≡ 256 * 2 ^ s
pow_eight s =
    ap (λ k. 2 ^ k) step
    ∙ omega (
      arith,
      pow-suc 2 s,
      pow-suc 2 (suc s),
      pow-suc 2 (suc (suc s)),
      pow-suc 2 (suc (suc (suc s))),
      pow-suc 2 (suc (suc (suc (suc s)))),
      pow-suc 2 (suc (suc (suc (suc (suc s))))),
      pow-suc 2 (suc (suc (suc (suc (suc (suc s)))))),
      pow-suc 2 (suc (suc (suc (suc (suc (suc (suc s))))))),
    )
  where
    step : s + 8 ≡ suc (suc (suc (suc (suc (suc (suc (suc s)))))))
    step = omega arith

-- A group in its place, and those behind it.
groups_sum : (s v : ℕ) → v % 256 * 2 ^ s + v / 256 * 2 ^ (s + 8) ≡ v * 2 ^ s
groups_sum s v = rw (pow_eight s) (
    let split : v % 256 + v / 256 * 256 ≡ v = omega arith in
    omega (
      arith,
      ap (λ w. w * 2 ^ s) split,
      add-mul (v % 256) (v / 256 * 256) (2 ^ s),
      mul_assoc (v / 256) 256 (2 ^ s),
    ))

behind_lt : (n v : ℕ) → v < 2 ^ (suc n * 8 + 4) → v / 256 < 2 ^ (n * 8 + 4)
behind_lt n v h =
    let shifted : suc n * 8 + 4 ≡ (n * 8 + 4) + 8 = omega arith in
    let scaled : 2 ^ (suc n * 8 + 4) ≡ 256 * 2 ^ (n * 8 + 4) =
      ap (λ k. 2 ^ k) shifted ∙ pow_eight (n * 8 + 4) in
    omega (arith, scaled)

read_groups-write_groups :
    (n shift result v : ℕ) (rest : Bits)
    → v < 2 ^ (n * 8 + 4)
    → read_groups n shift result (reader (write_groups n v ++ rest))
      ≡ (result + v * 2 ^ shift, reader rest)
unfolding read_groups write_groups
read_groups-write_groups zero shift result v rest h = elim (Bool-cases (ltb 0 v)) [
  | inl e ↦
      let all : v % 16 ≡ v = omega arith in
      rw (
        e,
        append_assoc (write_bits 1 1) (write_bits 4 (v % 16)) rest,
        read_bits-write_bits 1 1 (write_bits 4 (v % 16) ++ rest) (omega arith),
        read_bits-write_bits 4 (v % 16) rest (omega arith),
        all,
      )
  | inr e ↦
      let none_left : v ≡ 0 = ground arith in
      rw (e, read_bits-write_bits 1 0 rest (omega arith), none_left)
        (ap (λ r. (r, reader rest)) (omega arith))
]
read_groups-write_groups (suc n) shift result v rest h = elim (Bool-cases (ltb 0 v)) [
  | inl e ↦
      let behind = write_groups n (v / 256) in
      let sum : result + v % 256 * 2 ^ shift + v / 256 * 2 ^ (shift + 8) ≡ result + v * 2 ^ shift =
        omega (arith, groups_sum shift v) in
      rw (
        e,
        append_assoc (write_bits 1 1) (write_bits 8 (v % 256) ++ behind) rest,
        append_assoc (write_bits 8 (v % 256)) behind rest,
        read_bits-write_bits 1 1 (write_bits 8 (v % 256) ++ (behind ++ rest)) (omega arith),
        read_bits-write_bits 8 (v % 256) (behind ++ rest) (omega arith),
        read_groups-write_groups n (shift + 8) (result + v % 256 * 2 ^ shift) (v / 256) rest
            (behind_lt n v h),
        sum,
      )
  | inr e ↦
      let none_left : v ≡ 0 = ground arith in
      rw (e, read_bits-write_bits 1 0 rest (omega arith), none_left)
        (ap (λ r. (r, reader rest)) (omega arith))
]

read_written :
    (v : ℕ) (rest : Bits) → v < 2 ^ 64 → read_u64 (reader (write_u64 v ++ rest)) ≡ (v, reader rest)
unfolding read_u64 write_u64
read_written v rest h = elim (Bool-cases (v == 0)) [
  | inl e ↦
      let none_left : v ≡ 0 = ground arith in
      rw (e, read_bits-write_bits 2 0 rest (omega arith), none_left)
  | inr n ↦ elim (Bool-cases (leb v 16)) [
    | inl e ↦
        let low : v - 1 < 2 ^ 4 = ground arith in
        let back : 1 + (v - 1) ≡ v = ground arith in
        rw (
          n,
          e,
          append_assoc (write_bits 2 1) (write_bits 4 (v - 1)) rest,
          read_bits-write_bits 2 1 (write_bits 4 (v - 1) ++ rest) (omega arith),
          read_bits-write_bits 4 (v - 1) rest low,
          back,
        )
    | inr n4 ↦ elim (Bool-cases (leb v 272)) [
      | inl e ↦
          let low : v - 17 < 2 ^ 8 = ground arith in
          let back : 17 + (v - 17) ≡ v = ground arith in
          rw (
            n,
            n4,
            e,
            append_assoc (write_bits 2 2) (write_bits 8 (v - 17)) rest,
            read_bits-write_bits 2 2 (write_bits 8 (v - 17) ++ rest) (omega arith),
            read_bits-write_bits 8 (v - 17) rest low,
            back,
          )
      | inr n8 ↦
          let behind = write_groups 6 (v / 4096) in
          let sum : v % 4096 + v / 4096 * 2 ^ 12 ≡ v = omega arith in
          rw (
            n,
            n4,
            n8,
            append_assoc (write_bits 2 3) (write_bits 12 (v % 4096) ++ behind) rest,
            append_assoc (write_bits 12 (v % 4096)) behind rest,
            read_bits-write_bits 2 3 (write_bits 12 (v % 4096) ++ (behind ++ rest)) (omega arith),
            read_bits-write_bits 12 (v % 4096) (behind ++ rest) (omega arith),
            read_groups-write_groups 6 12 (v % 4096) (v / 4096) rest (omega arith),
            sum,
          )
    ]
  ]
]

pub length-write_u64 : (v : ℕ) → length (write_u64 v) ≡ u64_size v
unfolding write_u64 u64_size
length-write_u64 v = elim (Bool-cases (v == 0)) [
  | inl e ↦ rw e (length-write_bits 2 0)
  | inr n ↦ elim (Bool-cases (leb v 16)) [
    | inl e ↦ rw (n, e) (simp (length-append, length-write_bits) refl)
    | inr n4 ↦ elim (Bool-cases (leb v 272)) [
      | inl e ↦ rw (n, n4, e) (simp (length-append, length-write_bits) refl)
      | inr n8 ↦
          rw (n, n4, n8)
            (simp (length-append, length-write_bits, length-write_groups 6 (v / 4096))
              (omega arith))
    ]
  ]
]

-- A number below 2 ^ 64 that Write writes is what Read reads, up to what follows it, and it takes the
-- bits that CanEncode counts.
pub read_u64-write_u64 :
    (v : ℕ) (rest : Bits)
    → v < 2 ^ 64
    → (read_u64 (reader (write_u64 v ++ rest)) ≡ (v, reader rest))
      × (length (write_u64 v) ≡ u64_size v)
read_u64-write_u64 v rest h = (read_written v rest h, length-write_u64 v)
