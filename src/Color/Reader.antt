-- ===== src/Color/Reader.antt =====
-- src/lib/jxl/color_management.cc: a reader of the tag table of a profile.
use ssimulacra2_vulcan.Common.{
  ℕ, zero, suc, ◌+◌, ◌*◌, ◌%◌, ◌^◌, ◌≤◌, ◌<◌, ◌≡◌, refl, sym, ap, ◌∙◌, List, [], ◌∷◌, ◌++◌, map,
  length, length-append, append_assoc, All, Bytes, arith,
}
use ssimulacra2_vulcan.Color.Bytes.{bytes32}
use ssimulacra2_vulcan.Color.Table.{Entry, table_of, IsInside}
use ssimulacra2_vulcan.Color.Checksum.{take, drop}

-- A big-endian number
abbrev pub read_uint32 : Bytes → ℕ
read_uint32 (a ∷ b ∷ c ∷ d ∷ rest) = ((a * 256 + b) * 256 + c) * 256 + d
read_uint32 _ = 0

abbrev pub read_entries : ℕ → Bytes → List Entry
read_entries zero icc = []
read_entries (suc n) icc =
    (take 4 icc, read_uint32 (drop 4 icc), read_uint32 (drop 8 icc)) ∷ read_entries n (drop 12 icc)

-- The table behind the header of 128 bytes and the count
abbrev pub tag_table : Bytes → List Entry
tag_table icc = read_entries (read_uint32 (drop 128 icc)) (drop 132 icc)

-- An entry of the table whose tag lies behind the table, in the profile, and cell_at a multiple of 4
abbrev pub IsPart : Bytes → Entry → Type 0
IsPart icc (name, offset, size) =
    (offset % 4 ≡ 0) × (132 + 12 * length (tag_table icc) ≤ offset) × (offset + size ≤ length icc)

pub read_uint32-bytes32 : (v : ℕ) (rest : Bytes) → v < 2 ^ 32 → read_uint32 (bytes32 v ++ rest) ≡ v
read_uint32-bytes32 v rest h = omega arith

pub drop-append : (n : ℕ) (xs ys : Bytes) → length xs ≡ n → drop n (xs ++ ys) ≡ ys
drop-append zero [] ys h = refl
drop-append (suc n) [] ys h = absurd (omega arith)
drop-append zero (x ∷ xs) ys h = absurd (omega arith)
drop-append (suc n) (x ∷ xs) ys h = drop-append n xs ys (omega (arith, h))

take-append : (n : ℕ) (xs ys : Bytes) → length xs ≡ n → take n (xs ++ ys) ≡ xs
take-append zero [] ys h = refl
take-append (suc n) [] ys h = absurd (omega arith)
take-append zero (x ∷ xs) ys h = absurd (omega arith)
take-append (suc n) (x ∷ xs) ys h = ap (λ t. x ∷ t) (take-append n xs ys (omega (arith, h)))

abbrev pub placed : ℕ → Entry → Entry
placed base (name, offset, size) = (name, offset + base, size)

-- The bytes of the entries are read back.
pub read_entries-table_of :
    (n base : ℕ) (es : List Entry) (rest : Bytes)
    → n + base < 2 ^ 32
    → All (IsInside n) es
    → read_entries (length es) (table_of (λ o. o + base) es ++ rest) ≡ map (placed base) es
read_entries-table_of n base [] rest h inside = refl
read_entries-table_of n base ((name, offset, size) ∷ es) rest h ((l, aligned, ends), others) =
    let more = table_of (λ o. o + base) es in
    let whole = name ++ (bytes32 (offset + base) ++ (bytes32 size ++ more)) in
    let after = bytes32 (offset + base) ++ (bytes32 size ++ (more ++ rest)) in
    let split : whole ++ rest ≡ name ++ after =
      append_assoc name (bytes32 (offset + base) ++ (bytes32 size ++ more)) rest in
    let split8 : name ++ after
        ≡ (name ++ bytes32 (offset + base)) ++ (bytes32 size ++ (more ++ rest)) =
      sym (append_assoc name (bytes32 (offset + base)) (bytes32 size ++ (more ++ rest))) in
    let split12 : name ++ after
        ≡ (name ++ (bytes32 (offset + base) ++ bytes32 size)) ++ (more ++ rest) =
      sym (append_assoc name (bytes32 (offset + base) ++ bytes32 size) (more ++ rest)) in
    let name_read : take 4 (whole ++ rest) ≡ name =
      ap (take 4) split ∙ take-append 4 name after l in
    let offset_read : read_uint32 (drop 4 (whole ++ rest)) ≡ offset + base =
      ap (λ b. read_uint32 (drop 4 b)) split
      ∙ ap read_uint32 (drop-append 4 name after l)
      ∙ read_uint32-bytes32 (offset + base) (bytes32 size ++ (more ++ rest))
          (omega (arith, ends, h)) in
    let size_read : read_uint32 (drop 8 (whole ++ rest)) ≡ size =
      ap (λ b. read_uint32 (drop 8 b)) (split ∙ split8)
      ∙ ap read_uint32 (
          drop-append 8 (name ++ bytes32 (offset + base)) (bytes32 size ++ (more ++ rest))
            (omega (arith, l, length-append name (bytes32 (offset + base)))))
      ∙ read_uint32-bytes32 size (more ++ rest) (omega (arith, ends, h)) in
    let others_read : read_entries (length es) (drop 12 (whole ++ rest)) ≡ map (placed base) es =
      ap (λ b. read_entries (length es) (drop 12 b)) (split ∙ split12)
      ∙ ap (read_entries (length es)) (
          drop-append 12 (name ++ (bytes32 (offset + base) ++ bytes32 size)) (more ++ rest)
            (omega (arith, l, length-append name (bytes32 (offset + base) ++ bytes32 size))))
      ∙ read_entries-table_of n base es rest h others in
    cc (name_read, offset_read, size_read, others_read)
