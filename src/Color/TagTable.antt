-- ===== src/Color/TagTable.antt =====
-- src/lib/jxl/color_management.cc: what a reader finds in the tag table of a profile.
use ssimulacra2_vulcan.Common.{
  ℕ, suc, ◌+◌, ◌*◌, ◌%◌, ◌^◌, ◌≤◌, ◌<◌, ◌≡◌, refl, sym, ap, ap₂, ◌∙◌, subst, Bool, true, false,
  some, List, [], ◌∷◌, ◌++◌, map, length, length-append, append_assoc, All, if◌then◌else◌, Bytes,
  codes, arith, replicate,
}
use ssimulacra2_vulcan.Arith.{Arith, Doubles}
use ssimulacra2_vulcan.Color.Bytes.{bytes32}
use ssimulacra2_vulcan.Color.Encoding.{Cmath, ColorEncoding, is_gray}
use ssimulacra2_vulcan.Color.Tags.{Tags}
use ssimulacra2_vulcan.Color.Profile.{final_table, maybe_create_profile, made-assemble}
use ssimulacra2_vulcan.Color.Table.{Entry, name_of, table_of, IsInside, length-table_of}
use ssimulacra2_vulcan.Color.Required.{required_names, create_tags-IsWritten}
use ssimulacra2_vulcan.Color.Layout.{HasEntries, final_table-entries}
use ssimulacra2_vulcan.Color.Checksum.{
  take, drop, header_front, front_length, write_profile_id-parts, model_of, assemble-sized,
}
use ssimulacra2_vulcan.Color.Reader.{
  read_uint32, tag_table, IsPart, placed, read_uint32-bytes32, drop-append, read_entries,
  read_entries-table_of,
}

map-name_of : (base : ℕ) (es : List Entry) → map name_of (map (placed base) es) ≡ map name_of es
map-name_of base [] = refl
map-name_of base (e ∷ es) = ap (λ t. name_of e ∷ t) (map-name_of base es)

length-placed : (base : ℕ) (es : List Entry) → length (map (placed base) es) ≡ length es
length-placed base [] = refl
length-placed base (e ∷ es) = ap suc (length-placed base es)

-- Entries that lie in the tags lie in the profile, behind the table.
placed-IsPart :
    (n m base low : ℕ) (es : List Entry)
    → n + base ≤ m
    → base % 4 ≡ 0
    → low ≤ base
    → All (IsInside n) es
    → All (λ (e : Entry). (e.1 % 4 ≡ 0) × (low ≤ e.1) × (e.1 + e.2 ≤ m)) (map (placed base) es)
placed-IsPart n m base low [] h a lo inside = tt
placed-IsPart n m base low ((name, offset, size) ∷ es) h a lo ((l, aligned, ends), rest) = (
  (omega (arith, a, aligned), omega (arith, lo), omega (arith, h, ends)),
  placed-IsPart n m base low es h a lo rest,
)

-- The bytes of a profile, in parts: what a reader finds.
found_entries :
    (front table bytes : Bytes) (es : List Entry)
    → length front ≡ 128
    → All (IsInside (length bytes)) es
    → table ≡ bytes32 (length es) ++ table_of (λ o. o + (128 + (4 + 12 * length es))) es
    → let icc = front ++ (table ++ bytes) in
      length icc < 2 ^ 32
      → (tag_table icc ≡ map (placed (128 + (4 + 12 * length es))) es)
        × (length bytes + (128 + (4 + 12 * length es)) ≡ length icc)
found_entries front table bytes es l inside e h =
    let base = 128 + (4 + 12 * length es) in
    let entries = table_of (λ o. o + base) es in
    let long : length table ≡ 4 + 12 * length es =
      ap length e ∙ omega (arith, length-table_of (length bytes) (λ o. o + base) es inside) in
    let total : length bytes + base ≡ length (front ++ (table ++ bytes)) =
      omega (arith, l, long, length-append front (table ++ bytes), length-append table bytes) in
    let split : front ++ (table ++ bytes) ≡ front ++ (bytes32 (length es) ++ (entries ++ bytes)) =
      ap (λ t. front ++ (t ++ bytes)) e in
    let counted : read_uint32 (drop 128 (front ++ (table ++ bytes))) ≡ length es =
      ap (λ b. read_uint32 (drop 128 b)) split
      ∙ ap read_uint32 (drop-append 128 front (bytes32 (length es) ++ (entries ++ bytes)) l)
      ∙ read_uint32-bytes32 (length es) (entries ++ bytes) (omega (arith, h, total)) in
    let behind : drop 132 (front ++ (table ++ bytes)) ≡ entries ++ bytes =
      ap (drop 132) (split ∙ sym (append_assoc front (bytes32 (length es)) (entries ++ bytes)))
      ∙ drop-append 132 (front ++ bytes32 (length es)) (entries ++ bytes)
          (omega (arith, l, length-append front (bytes32 (length es)))) in
    (
      ap₂ read_entries counted behind
          ∙ read_entries-table_of (length bytes) base es bytes (omega (arith, h, total)) inside,
      total,
    )

-- The first fields of a header
front_fields :
    (c : ColorEncoding) (size intent : ℕ) (rest : Bytes)
    → size < 2 ^ 32
    → let icc = header_front size (model_of c) intent ++ rest in
      (read_uint32 icc ≡ size) × (take 4 (drop 36 icc) ≡ codes "acsp")
front_fields c size intent rest h = (read_uint32-bytes32 size [] h, go (is_gray c))
  where
    go :
        (gray : Bool)
        → take 4 (
            drop 36
              (header_front size (if gray then codes "GRAY" else codes "RGB ") intent ++ rest))
          ≡ codes "acsp"
    go true = refl
    go false = refl

-- What a reader relies on in a profile: its size, its signature, its tags, and that each is a part of it.
abbrev pub IsProfile : ColorEncoding → Bytes → Type 0
IsProfile c icc =
    (read_uint32 icc ≡ length icc)
    × (take 4 (drop 36 icc) ≡ codes "acsp")
    × (map name_of (tag_table icc) ≡ required_names c)
    × All (IsPart icc) (tag_table icc)

parts-IsProfile :
    (c : ColorEncoding) (t : Tags) (es : List Entry) (s : Bytes)
    → length s ≡ 16
    → HasEntries t (required_names c) es
    → let table = final_table 128 t in
      let size = 128 + length table + length (t.bytes) in
      let front = header_front size (model_of c) (c.rendering_intent) in
      let icc = front ++ (s ++ (replicate 28 0 ++ (table ++ t.bytes))) in
      length icc < 2 ^ 32 → IsProfile c icc
parts-IsProfile c t es s l (has, offsets, named, inside) h =
    let table = final_table 128 t in
    let size = 128 + length table + length (t.bytes) in
    let front = header_front size (model_of c) (c.rendering_intent) in
    let header = front ++ (s ++ replicate 28 0) in
    let base = 128 + (4 + 12 * length es) in
    let icc = front ++ (s ++ (replicate 28 0 ++ (table ++ t.bytes))) in
    let split : icc ≡ header ++ (table ++ t.bytes) =
      ap (λ b. front ++ b) (sym (append_assoc s (replicate 28 0) (table ++ t.bytes)))
      ∙ sym (append_assoc front (s ++ replicate 28 0) (table ++ t.bytes)) in
    let long : length header ≡ 128 = omega (
      arith,
      l,
      front_length c size,
      length-append front (s ++ replicate 28 0),
      length-append s (replicate 28 0),
    ) in
    let whole : length icc ≡ size =
      ap length split
      ∙ omega
          (arith, long, length-append header (table ++ t.bytes), length-append table (t.bytes)) in
    let filled = final_table-entries 128 (required_names c) t es (has, offsets, named, inside) in
    let (entries, total) =
      found_entries header table (t.bytes) es long inside filled
        (subst (λ b. length b < 2 ^ 32) split h) in
    let tags : tag_table icc ≡ map (placed base) es = ap tag_table split ∙ entries in
    let (sized, signed) =
      front_fields c size (c.rendering_intent) (s ++ (replicate 28 0 ++ (table ++ t.bytes)))
        (omega (arith, whole, h)) in
    let count : length (tag_table icc) ≡ length es = ap length tags ∙ length-placed base es in
    let parts =
      placed-IsPart (length (t.bytes)) (length icc) base (132 + 12 * length (tag_table icc)) es
        (omega (arith, total, ap length split)) (omega arith) (omega (arith, count)) inside in
    (
      sized ∙ sym whole,
      signed,
      ap (map name_of) tags ∙ map-name_of base es ∙ named,
      subst (All (IsPart icc)) (sym tags) parts,
    )

module _ {F D : Type 0} ⦃f : Arith F⦄ ⦃d : Arith D⦄ (conv : Doubles F D) (lib : Cmath F D) where
  -- Let a profile that MaybeCreateProfile makes be smaller than 4 GiB. Then its first field is its size, it has the
  -- signature, its tags are the ones that ICC requires of its color space, in order, and each tag of the table starts at a
  -- multiple of 4, behind the table, and ends in the profile.
  pub maybe_create_profile-IsProfile :
      (c : ColorEncoding) (icc : Bytes)
      → maybe_create_profile conv lib c ≡ some icc
      → length icc < 2 ^ 32
      → IsProfile c icc
  maybe_create_profile-IsProfile c icc e h =
      let (t, made, same) = made-assemble conv lib c icc e in
      let (final, (es, has)) = create_tags-IsWritten conv lib c t made in
      let table = final_table 128 t in
      let size = 128 + length table + length (t.bytes) in
      let front = header_front size (model_of c) (c.rendering_intent) in
      let (s, l, id_written) =
        write_profile_id-parts front (replicate 28 0 ++ (table ++ t.bytes)) (front_length c size) in
      let parts : icc ≡ front ++ (s ++ (replicate 28 0 ++ (table ++ t.bytes))) =
        sym same ∙ assemble-sized c t ∙ id_written in
      subst (IsProfile c) (sym parts)
        (parts-IsProfile c t es s l has (subst (λ b. length b < 2 ^ 32) parts h))
