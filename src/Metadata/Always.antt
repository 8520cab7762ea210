-- ===== src/Metadata/Always.antt =====
-- src/lib/jxl/fields.cc, ReadVisitor: what holds wherever a VisitFields returns true while reading, holds of what is read.
use ssimulacra2_vulcan.Common.{
  ℕ, ◌≡◌, refl, Bool, true, false, not, ◌&&◌, ◌==◌, if◌then◌else◌, Bool-cases, inl, inr,
}
use ssimulacra2_vulcan.Fields.Bits.{Reader, read_bits, within_bounds}
use ssimulacra2_vulcan.Fields.VarInt.{read_u64}
use ssimulacra2_vulcan.Fields.Coder.{Coder, bits, u32, u64, f16, read_value}
use ssimulacra2_vulcan.Fields.Selector.{read_u32}
use ssimulacra2_vulcan.Fields.Visit.{
  Visit, done, failure, number, conditional, all_default, is_reading, extensions, end_extensions,
}
use ssimulacra2_vulcan.Fields.Visitors.{
  visit_read, bundle_read, ReadResult, failed, not_enough_bytes, finished, ReadState, fresh_state,
  finish_extensions, value_or, is_some, read_ext_sizes, pop_count, total_bits_consumed,
}

-- The values that a field with such a coder may get from a stream; only of U32Coder it is said that the
-- value was read.
unfoldable pub IsRead : Coder → ℕ → Type 0
IsRead (bits n) w = Unit {0}
IsRead (u32 enc) w = (r : Reader) × ((read_u32 enc r).0 ≡ w)
IsRead u64 w = Unit {0}
IsRead f16 w = Unit {0}

read_value-IsRead :
    (subnormal : ℕ → ℕ) (c : Coder) (v : ℕ) (r : Reader)
    → IsRead c (value_or ((read_value subnormal c r).0) v)
unfolding IsRead read_value
read_value-IsRead subnormal (bits n) v r = tt
read_value-IsRead subnormal (u32 enc) v r = (r, refl)
read_value-IsRead subnormal u64 v r = tt
read_value-IsRead subnormal f16 v r = tt

-- Wherever a visit returns true while reading, the bundle has P.
unfoldable pub Always : {A : Type 0} → (A → Type 0) → Visit A → Type 0
Always P (done a) = P a
Always P failure = Unit {0}
Always P (number c d v k) = (w : ℕ) → IsRead c w → Always P (k w)
Always P (conditional b k) = Always P (k b)
Always P (all_default a b k) = (now skip : Bool) → Always P (k now skip)
Always P (is_reading k) = Always P (k true)
Always P (extensions e k) = (w : ℕ) → Always P (k w)
Always P (end_extensions t) = Always P t

-- What a visitor returns, if it finishes.
abbrev pub Returns : {A : Type 0} → (A → Type 0) → ReadResult A → Type 0
Returns P failed = Unit {0}
Returns P not_enough_bytes = Unit {0}
Returns P (finished a r ok) = P a

-- What follows a part of a visit that may fail.
after_Returns :
    {A B : Type 0} (P : A → Type 0) (q : ReadResult B) (f : B → Reader → ReadResult A)
    → ((b : B) (r : Reader) → Returns P (f b r))
    → Returns P
        (elim q [ failed ↦ failed | not_enough_bytes ↦ not_enough_bytes | finished b r ok ↦ f b r ])
after_Returns P failed f h = tt
after_Returns P not_enough_bytes f h = tt
after_Returns P (finished b r ok) f h = h b r

module _ (subnormal : ℕ → ℕ) (size : ℕ) where
  visit_read-Returns :
      {A : Type 0} (P : A → Type 0) (t : Visit A) (r : Reader) (s : ReadState)
      → Always P t
      → Returns P (visit_read subnormal size t r s)
  unfolding Always visit_read
  visit_read-Returns P (done a) r s h = h
  visit_read-Returns P failure r s h = tt
  visit_read-Returns P (number c d v k) r s h =
      let (w, rest) = read_value subnormal c r in
      let later =
        visit_read-Returns P (k (value_or w v)) rest (record s { ok = s.ok && is_some w })
          (h (value_or w v) (read_value-IsRead subnormal c v r)) in
      elim (Bool-cases (not (within_bounds rest))) [
        | inl out ↦ rw out tt
        | inr fine ↦ rw fine later
      ]
  visit_read-Returns P (conditional b k) r s h = visit_read-Returns P (k b) r s h
  visit_read-Returns P (all_default a b k) r s h =
      let (w, rest) = read_bits 1 r in
      let (now, skip) = if within_bounds rest then (w == 1, w == 1) else (b, false) in
      visit_read-Returns P (k now skip) rest s (h now skip)
  visit_read-Returns P (is_reading k) r s h = visit_read-Returns P (k true) r s h
  visit_read-Returns P (extensions e k) r s h =
      let (w, rest) = read_u64 r in
      let plain = visit_read-Returns P (k w) rest s (h w) in
      elim (Bool-cases (not (within_bounds rest))) [
        | inl out ↦ rw out tt
        | inr fine ↦ elim (Bool-cases (w == 0)) [
          | inl zero_ext ↦ rw (fine, zero_ext) plain
          | inr some_ext ↦
              rw (fine, some_ext)
                (after_Returns P (read_ext_sizes (pop_count 64 w) rest (s.total_extension_bits))
                  (λ total behind. visit_read subnormal size (k w) behind (record s {
                    pos_after_ext_size = total_bits_consumed subnormal size behind;
                    total_extension_bits = total;
                  }))
                  (λ total behind.
                    visit_read-Returns P (k w) behind
                      (record s {
                        pos_after_ext_size = total_bits_consumed subnormal size behind;
                        total_extension_bits = total;
                      })
                      (h w)))
        ]
      ]
  visit_read-Returns P (end_extensions t) r s h =
      after_Returns P (finish_extensions subnormal size r s)
        (λ u behind. visit_read subnormal size t behind s)
        (λ u behind. visit_read-Returns P t behind s h)

  -- Let a property hold of the bundle wherever a bundle's VisitFields returns true while it reads, for each
  -- value that it may get. Then Bundle::Read, of any bits and into any bundle, ends with a bundle that has the property if it finishes.
  pub bundle_read-Returns :
      {A : Type 0} (P : A → Type 0) (visit : A → Visit A) (h : A) (r : Reader)
      → Always P (visit h)
      → Returns P (bundle_read subnormal size visit h r)
  unfolding bundle_read
  bundle_read-Returns P visit h r always = visit_read-Returns P (visit h) r fresh_state always
