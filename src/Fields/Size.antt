-- ===== src/Fields/Size.antt =====
-- src/lib/jxl/fields.cc: the size that CanEncodeVisitor counts is the size of what WriteVisitor writes.
use ssimulacra2_vulcan.Common.{
  ℕ, ◌+◌, ◌≡◌, refl, sym, Bool, false, some, [], ◌++◌, length, length-append, arith, ap, ◌∙◌,
  some-eq, bind-eq-some,
}
use ssimulacra2_vulcan.Fields.Bits.{Bits, write_bits, length-write_bits}
use ssimulacra2_vulcan.Fields.VarInt.{write_u64, u64_size, length-write_u64}
use ssimulacra2_vulcan.Fields.Coder.{Coder, value_size, write_value-size}
use ssimulacra2_vulcan.Fields.Visit.{
  Visit, done, number, conditional, all_default, is_reading, extensions, end_extensions, bit_of,
}
use ssimulacra2_vulcan.Fields.Visitors.{
  visit_write, visit_sizes, write_extensions, bundle_write, Sizes, no_sizes, add_size, get_sizes,
  can_encode,
}

-- A visit without extensions, by a bundle with its fields all_default set, that ends with the bundle a
-- if it changes no field.
pub data IsMarked {A : Type 0} : Visit A → A → Type 0 where
  ends : {a : A} → IsMarked (done a) a
  reads :
      {c : Coder} {d v : ℕ} {k : ℕ → Visit A} {a : A}
      → IsMarked (k v) a
      → IsMarked (number c d v k) a
  branches :
      {b : Bool} {k : Bool → Visit A} {a : A} → IsMarked (k b) a → IsMarked (conditional b k) a
  marks :
      {b : Bool} {k : Bool → Bool → Visit A} {a : A}
      → IsMarked (k b b) a
      → IsMarked (all_default b b k) a
  asks : {k : Bool → Visit A} {a : A} → IsMarked (k false) a → IsMarked (is_reading k) a
  extends : {k : ℕ → Visit A} {a : A} → IsMarked (k 0) a → IsMarked (extensions 0 k) a
  stops : {t : Visit A} {a : A} → IsMarked t a → IsMarked (end_extensions t) a

-- What is written has the size that was added, and there are no bits of extensions.
abbrev Counted : {A : Type 0} → Visit A → A → A → ℕ → Sizes → Sizes → Type 0
Counted t a b ext s s' =
    (a ≡ b)
    × (bits : Bits) × (visit_write ext t ≡ some bits)
    × (s'.encoded_bits ≡ s.encoded_bits + length bits)
    × (s'.pos_after_ext ≡ s.pos_after_ext)

sizes-Counted :
    {A : Type 0} {t : Visit A} {a b : A} (ext : ℕ) (s s' : Sizes)
    → IsMarked t a
    → visit_sizes t s ≡ some (b, s')
    → Counted t a b ext s s'
unfolding visit_sizes visit_write write_extensions
sizes-Counted ext s s' ends e =
    let same : s ≡ s' = ap (λ p. p.1) (some-eq e) in
    (ap (λ p. p.0) (some-eq e), [], refl, rw (← same) (omega arith), rw (← same))
sizes-Counted ext s s' (reads {c = c} {v = v} later) e =
    let (n, size, e') = bind-eq-some (value_size c v) _ e in
    let (first, w, l) = write_value-size c v n size in
    let (back, behind, w', l', pos) = sizes-Counted ext (add_size s n) s' later e' in
    (back, first ++ behind, rw (w, w'), omega (arith, l, l', length-append first behind), pos)
sizes-Counted ext s s' (branches later) e = sizes-Counted ext s s' later e
sizes-Counted ext s s' (marks {b = b} later) e =
    let (back, behind, w, l, pos) = sizes-Counted ext (add_size s 1) s' later e in
    (
      back,
      write_bits 1 (bit_of b) ++ behind,
      rw w,
      omega (
        arith,
        l,
        length-append (write_bits 1 (bit_of b)) behind,
        length-write_bits 1 (bit_of b),
      ),
      pos,
    )
sizes-Counted ext s s' (asks later) e = sizes-Counted ext s s' later e
sizes-Counted ext s s' (extends later) e =
    let (back, behind, w, l, pos) =
      sizes-Counted ext (record (add_size s (u64_size 0)) { extensions = 0 }) s' later e in
    (
      back,
      write_u64 0 ++ behind,
      rw w,
      omega (arith, l, length-append (write_u64 0) behind, length-write_u64 0),
      pos,
    )
sizes-Counted ext s s' (stops later) e = sizes-Counted ext s s' later e

no_extensions : (s : Sizes) → s.pos_after_ext ≡ 0 → get_sizes s ≡ (0, s.encoded_bits)
unfolding get_sizes
no_extensions s h = rw h

-- If CanEncode accepts a bundle without extensions whose fields all_default are set, then Write
-- succeeds, and writes as many bits as CanEncode has counted.
pub bundle_write-size :
    {A : Type 0} (visit : A → Visit A) (g b : A) (ext total : ℕ)
    → IsMarked (visit g) g
    → can_encode (visit g) ≡ some (b, ext, total)
    → (g ≡ b)
      × (bits : Bits) × (bundle_write visit g ≡ some bits)
      × (visit_write ext (visit g) ≡ some bits)
      × (length bits ≡ total)
unfolding bundle_write can_encode
bundle_write-size {A} visit g b ext total marked e =
    let ((b', s'), sized, e') = bind-eq-some (visit_sizes (visit g) no_sizes) _ e in
    let (back, bits, w, l, pos) = sizes-Counted ext no_sizes s' marked sized in
    let counted : get_sizes s' ≡ (0, s'.encoded_bits) = no_extensions s' pos in
    let all : (b', 0, s'.encoded_bits) ≡ (b, ext, total) = some-eq (rw counted at e') in
    let last : s'.encoded_bits ≡ total = ap (λ (r : A × ℕ × ℕ). r.2) all in
    let first : 0 ≡ ext = ap (λ (r : A × ℕ × ℕ). r.1) all in
    (
      back ∙ ap (λ (r : A × ℕ × ℕ). r.0) all,
      bits,
      rw (sized, counted, ← back, first) w,
      w,
      omega (arith, l, last),
    )

-- Whatever Write writes of such a bundle has been counted.
pub bundle_write-inv :
    {A : Type 0} (visit : A → Visit A) (g : A) (bits : Bits)
    → IsMarked (visit g) g
    → bundle_write visit g ≡ some bits
    → (ext : ℕ) × (visit_write ext (visit g) ≡ some bits)
bundle_write-inv visit g bits marked e =
    let ((b, ext, total), able, e') = able_to visit g bits e in
    let (back, bits', whole, w, l) = bundle_write-size visit g b ext total marked able in
    (ext, w ∙ sym whole ∙ e)
  where
    able_to :
        {A : Type 0} (visit : A → Visit A) (g : A) (bits : Bits)
        → bundle_write visit g ≡ some bits
        → (r : A × ℕ × ℕ) × (can_encode (visit g) ≡ some r)
          × (visit_write (r.1) (visit (r.0)) ≡ some bits)
    able_to visit g bits h = unfold bundle_write in bind-eq-some (can_encode (visit g)) _ h
