-- ===== src/Color/Table.antt =====
-- src/lib/jxl/color_management.cc: the tag table that AddToICCTagTable builds, and what MaybeCreateProfile writes into it.
use ssimulacra2_vulcan.Common.{
  ℕ, suc, ◌+◌, ◌*◌, ◌%◌, ◌≤◌, ◌≡◌, refl, sym, ap, ◌∙◌, List, [], ◌∷◌, ◌++◌, map, length,
  length-append, append_assoc, All, Bytes, arith,
}
use ssimulacra2_vulcan.Color.Bytes.{
  put_grown, put_grown_end, put_grown_inside, write_icc_uint32, write_icc_tag, bytes32,
}
use ssimulacra2_vulcan.Color.Tags.{Tags, add_to_icc_tag_table, add_uint32, add_name}
use ssimulacra2_vulcan.Color.Profile.{write_offsets}

-- The name, the offset and the size of a tag
abbrev pub Entry : Type 0
Entry = Bytes × ℕ × ℕ

abbrev pub offset_of : Entry → ℕ
offset_of e = e.1

abbrev pub name_of : Entry → Bytes
name_of e = e.0

-- The entries as bytes, with each offset as `place` has it
abbrev pub table_of : (ℕ → ℕ) → List Entry → Bytes
table_of place [] = []
table_of place ((name, offset, size) ∷ es) =
    name ++ (bytes32 (place offset) ++ (bytes32 size ++ table_of place es))

abbrev pub blank : ℕ → ℕ
blank offset = 0

-- A tag that starts at a multiple of 4 and ends in the first n bytes
abbrev pub IsInside : ℕ → Entry → Type 0
IsInside n (name, offset, size) = (length name ≡ 4) × (offset % 4 ≡ 0) × (offset + size ≤ n)

pub All-IsInside : (n m : ℕ) (es : List Entry) → n ≤ m → All (IsInside n) es → All (IsInside m) es
All-IsInside n m [] h inside = tt
All-IsInside n m ((name, offset, size) ∷ es) h ((l, aligned, ends), rest) =
    ((l, aligned, omega (arith, h, ends)), All-IsInside n m es h rest)

pub All-append : (P : Entry → Type 0) (es fs : List Entry) → All P es → All P fs → All P (es ++ fs)
All-append P [] fs p q = q
All-append P (e ∷ es) fs (p, ps) q = (p, All-append P es fs ps q)

pub table_of-append :
    (place : ℕ → ℕ) (es fs : List Entry)
    → table_of place (es ++ fs) ≡ table_of place es ++ table_of place fs
table_of-append place [] fs = refl
table_of-append place ((name, offset, size) ∷ es) fs =
    ap (λ t. name ++ (bytes32 (place offset) ++ (bytes32 size ++ t))) (table_of-append place es fs)
    ∙ sym (
        append_assoc name (bytes32 (place offset) ++ (bytes32 size ++ table_of place es))
          (table_of place fs))

pub map-append :
    {A B : Type 0} (f : A → B) (xs ys : List A) → map f (xs ++ ys) ≡ map f xs ++ map f ys
map-append f [] ys = refl
map-append f (x ∷ xs) ys = ap (λ t. f x ∷ t) (map-append f xs ys)

pub length-table_of :
    (n : ℕ) (place : ℕ → ℕ) (es : List Entry)
    → All (IsInside n) es
    → length (table_of place es) ≡ 12 * length es
length-table_of n place [] inside = refl
length-table_of n place ((name, offset, size) ∷ es) ((l, aligned, ends), rest) =
    let behind = bytes32 (place offset) ++ (bytes32 size ++ table_of place es) in
    omega (arith, l, length-table_of n place es rest, length-append name behind)

-- AddToICCTagTable appends an entry that has no offset yet.
pub added_entry :
    (name : Bytes) (t : Tags)
    → (add_to_icc_tag_table name t).table
      ≡ t.table ++ table_of blank ((name, t.offset, t.size) ∷ [])
unfolding add_to_icc_tag_table write_icc_uint32 write_icc_tag
added_entry name t =
    put_grown_end (bytes32 (t.size)) (add_uint32 0 (add_name name (t.table)))
    ∙ ap (λ b. b ++ bytes32 (t.size))
        (put_grown_end (bytes32 0) (add_name name (t.table))
          ∙ ap (λ b. b ++ bytes32 0) (put_grown_end name (t.table)))
    ∙ append_assoc (t.table ++ name) (bytes32 0) (bytes32 (t.size))
    ∙ append_assoc (t.table) name (bytes32 0 ++ bytes32 (t.size))

-- The loop over the offsets fills them in.
pub filled_offsets :
    (n base i : ℕ) (es : List Entry) (before : Bytes)
    → length before ≡ 4 + 12 * i
    → All (IsInside n) es
    → write_offsets base i (map offset_of es) (before ++ table_of blank es)
      ≡ before ++ table_of (λ o. o + base) es
unfolding write_offsets write_icc_uint32
filled_offsets n base i [] before h inside = refl
filled_offsets n base i ((name, offset, size) ∷ es) before h ((l, aligned, ends), rest) =
    let front = before ++ name in
    let here : length front ≡ 4 + 12 * i + 4 = omega (arith, h, l, length-append before name) in
    let written : put_grown (4 + 12 * i + 4) (bytes32 (offset + base))
          (before ++ table_of blank ((name, offset, size) ∷ es))
        ≡ front ++ (bytes32 (offset + base) ++ (bytes32 size ++ table_of blank es)) =
      ap (put_grown (4 + 12 * i + 4) (bytes32 (offset + base)))
        (sym (append_assoc before name (bytes32 0 ++ (bytes32 size ++ table_of blank es))))
      ∙ rw (← here) (
          put_grown_inside front (bytes32 0) (bytes32 (offset + base))
            (bytes32 size ++ table_of blank es) refl) in
    let next = front ++ (bytes32 (offset + base) ++ bytes32 size) in
    let split : (place : ℕ → ℕ)
        → front ++ (bytes32 (offset + base) ++ (bytes32 size ++ table_of place es))
          ≡ next ++ table_of place es =
      λ place.
        sym (append_assoc front (bytes32 (offset + base) ++ bytes32 size) (table_of place es)) in
    let long : length next ≡ 4 + 12 * suc i =
      omega (arith, here, length-append front (bytes32 (offset + base) ++ bytes32 size)) in
    ap (write_offsets base (suc i) (map offset_of es)) written
    ∙ (ap (write_offsets base (suc i) (map offset_of es)) (split blank)
        ∙ filled_offsets n base (suc i) es next long rest
        ∙ sym (split (λ o. o + base))
        ∙ append_assoc before name
            (bytes32 (offset + base) ++ (bytes32 size ++ table_of (λ o. o + base) es)))
