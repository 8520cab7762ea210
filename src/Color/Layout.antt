-- ===== src/Color/Layout.antt =====
-- src/lib/jxl/color_management.cc: the tag table of a profile names parts of the profile.
use ssimulacra2_vulcan.Common.{
  ℕ, zero, suc, ◌+◌, ◌-◌, ◌*◌, ◌%◌, ◌≤◌, ◌≡◌, refl, sym, ap, ◌∙◌, List, [], ◌∷◌, ◌++◌, map, length,
  length-append, append_assoc, append-nil, All, ◌==◌, Bool-cases, inl, inr, Bytes, arith,
}
use ssimulacra2_vulcan.Color.Bytes.{
  put_grown, put_grown_end, put_grown_inside, write_icc_uint32, bytes32,
}
use ssimulacra2_vulcan.Color.Tags.{Tags, add_to_icc_tag_table, finalize_icc_tag, pad_to_four}
use ssimulacra2_vulcan.Color.Profile.{add_names, add_tag, no_tags, final_table, write_offsets}
use ssimulacra2_vulcan.Color.Table.{
  Entry, offset_of, name_of, table_of, blank, IsInside, All-IsInside, All-append, table_of-append,
  map-append, length-table_of, added_entry, filled_offsets,
}

-- The table so far has the entries es, with the names, and they lie in the tags so far.
abbrev pub HasEntries : Tags → List Bytes → List Entry → Type 0
HasEntries t names es =
    (t.table ≡ bytes32 0 ++ table_of blank es)
    × (t.offsets ≡ map offset_of es)
    × (map name_of es ≡ names)
    × All (IsInside (length (t.bytes))) es

-- The last tag ends where the bytes end, at a multiple of 4.
abbrev pub IsFinal : Tags → Type 0
IsFinal t = (t.offset % 4 ≡ 0) × (t.offset + t.size ≡ length (t.bytes)) × (length (t.bytes) % 4 ≡ 0)

abbrev AreNames : List Bytes → Type 0
AreNames names = All (λ name. length name ≡ 4) names

pad_to_four-length :
    (n : ℕ) (tags : Bytes)
    → (4 - length tags % 4) % 4 ≤ n
    → (length (pad_to_four n tags) % 4 ≡ 0) × (length tags ≤ length (pad_to_four n tags))
unfolding pad_to_four
pad_to_four-length zero tags h = (omega (arith, h), omega arith)
pad_to_four-length (suc n) tags h =
    let l = length-append tags (0 ∷ []) in
    elim (Bool-cases (length tags % 4 == 0)) [
      | inl whole ↦ rw whole (ground arith, omega arith)
      | inr more ↦
          let (aligned, grows) = pad_to_four-length n (tags ++ 0 ∷ []) (ground arith) in
          rw more (aligned, omega (arith, l, grows))
    ]

-- FinalizeICCTag, after more bytes
pub finalize_icc_tag-IsFinal :
    (bytes : Bytes) (t : Tags)
    → IsFinal t
    → length (t.bytes) ≤ length bytes
    → let t' = finalize_icc_tag (record t { bytes = bytes }) in
      IsFinal t' × (length (t.bytes) ≤ length (t'.bytes))
unfolding finalize_icc_tag
finalize_icc_tag-IsFinal bytes t (a, end, aligned) h =
    let (even, grows) = pad_to_four-length 3 bytes (omega arith) in
    ((omega (arith, end, aligned), omega (arith, end, h, grows), even), omega (arith, h, grows))

-- AddToICCTagTable, for the last tag
add_to_icc_tag_table-HasEntries :
    (name : Bytes) (t : Tags) (names : List Bytes) (es : List Entry)
    → length name ≡ 4
    → IsFinal t
    → HasEntries t names es
    → HasEntries
        (add_to_icc_tag_table name t)
        (names ++ name ∷ [])
        (es ++ (name, t.offset, t.size) ∷ [])
unfolding add_to_icc_tag_table
add_to_icc_tag_table-HasEntries name t names es l (a, end, aligned)
      (table, offsets, named, inside) =
    let e : Entry = (name, t.offset, t.size) in
    (
      added_entry name t
          ∙ ap (λ b. b ++ table_of blank (e ∷ [])) table
          ∙ append_assoc (bytes32 0) (table_of blank es) (table_of blank (e ∷ []))
          ∙ ap (λ b. bytes32 0 ++ b) (sym (table_of-append blank es (e ∷ []))),
      ap (λ os. os ++ t.offset ∷ []) offsets ∙ sym (map-append offset_of es (e ∷ [])),
      map-append name_of es (e ∷ []) ∙ ap (λ ns. ns ++ name ∷ []) named,
      All-append (IsInside (length (t.bytes))) es (e ∷ []) inside ((l, a, omega (arith, end)), tt),
    )

-- Final tags with their entries
abbrev pub IsWritten : List Bytes → Tags → Type 0
IsWritten names t = IsFinal t × ((es : List Entry) × HasEntries t names es)

add_names-IsWritten :
    (new names : List Bytes) (t : Tags)
    → AreNames new
    → IsWritten names t
    → IsWritten (names ++ new) (add_names new t)
unfolding add_names add_to_icc_tag_table
add_names-IsWritten [] names t l h = rw append-nil h
add_names-IsWritten (name ∷ new) names t (l, ls) (final, (es, has)) =
    let next = add_names-IsWritten new (names ++ name ∷ []) (add_to_icc_tag_table name t) ls (
      final,
      (
        es ++ (name, t.offset, t.size) ∷ [],
        add_to_icc_tag_table-HasEntries name t names es l final has,
      ),
    ) in
    rw (sym (append_assoc names (name ∷ []) new)) next

-- A tag that is created at the end of the bytes
pub add_tag-IsWritten :
    (new names : List Bytes) (bytes : Bytes) (t : Tags)
    → AreNames new
    → length (t.bytes) ≤ length bytes
    → IsWritten names t
    → IsWritten (names ++ new) (add_tag new bytes t)
unfolding add_tag finalize_icc_tag
add_tag-IsWritten new names bytes t l h (final, (es, (table, offsets, named, inside))) =
    let t' = finalize_icc_tag (record t { bytes = bytes }) in
    let (final', grows) = finalize_icc_tag-IsFinal bytes t final h in
    add_names-IsWritten new names t' l (
      final',
      (
        es,
        (
          table,
          offsets,
          named,
          All-IsInside (length (t.bytes)) (length (t'.bytes)) es grows inside,
        ),
      ),
    )

pub no_tags-IsWritten : IsWritten [] no_tags
unfolding write_icc_uint32
no_tags-IsWritten = ((refl, refl, refl), ([], (put_grown_end (bytes32 0) [], refl, refl, tt)))

count_offsets : (es : List Entry) → length (map offset_of es) ≡ length es
count_offsets [] = refl
count_offsets (e ∷ es) = ap suc (count_offsets es)

-- The table with its count and its offsets
pub final_table-entries :
    (n : ℕ) (names : List Bytes) (t : Tags) (es : List Entry)
    → HasEntries t names es
    → final_table n t ≡ bytes32 (length es) ++ table_of (λ o. o + (n + (4 + 12 * length es))) es
unfolding final_table write_icc_uint32
final_table-entries n names t es (table, offsets, named, inside) =
    let m = length (t.bytes) in
    let count : length (t.offsets) ≡ length es = ap length offsets ∙ count_offsets es in
    let long : length (t.table) ≡ 4 + 12 * length es =
      ap length table ∙ omega (arith, length-table_of m blank es inside) in
    let counted : put_grown 0 (bytes32 (length es)) (bytes32 0 ++ table_of blank es)
        ≡ bytes32 (length es) ++ table_of blank es =
      put_grown_inside [] (bytes32 0) (bytes32 (length es)) (table_of blank es) refl in
    rw (count, long, offsets, table)
      (ap (write_offsets (n + (4 + 12 * length es)) 0 (map offset_of es)) counted
        ∙ filled_offsets m (n + (4 + 12 * length es)) 0 es (bytes32 (length es)) (omega arith)
            inside)
