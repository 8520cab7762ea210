-- ===== src/Fields/Trip.antt =====
-- src/lib/jxl/fields.cc: what WriteVisitor writes is what ReadVisitor reads, for every bundle whose
-- VisitFields asks for the same fields when it is given the values that were written.
use ssimulacra2_vulcan.Common.{
  ℕ, ◌≡◌, refl, Bool, true, false, some, [], ◌++◌, append_assoc, ◌==◌, arith, some-eq, bind-eq-some,
}
use ssimulacra2_vulcan.Fields.Bits.{
  Bits, reader, within_bounds, read_bits, write_bits, read_bits-write_bits,
}
use ssimulacra2_vulcan.Fields.VarInt.{write_u64, read_u64-write_u64}
use ssimulacra2_vulcan.Fields.Coder.{Coder, write_value, Fits, read_value-write_value}
use ssimulacra2_vulcan.Fields.Visit.{
  Visit, done, number, conditional, all_default, is_reading, extensions, end_extensions, bit_of,
}
use ssimulacra2_vulcan.Fields.Visitors.{
  visit_write, visit_read, finished, fresh_state, write_extensions, finish_extensions,
}

-- A visit that reads the values that another one writes ends with the bundle a. Extensions are none.
pub data Replays {A : Type 0} : Visit A → Visit A → A → Type 0 where
  ends : {b a : A} → Replays (done b) (done a) a
  reads :
      {c : Coder} {d d' v v' : ℕ} {k l : ℕ → Visit A} {a : A}
      → Fits c v
      → Replays (k v) (l v) a
      → Replays (number c d v k) (number c d' v' l) a
  branches :
      {b : Bool} {k l : Bool → Visit A} {a : A}
      → Replays (k b) (l b) a
      → Replays (conditional b k) (conditional b l) a
  marks :
      {x x' b b' : Bool} {k l : Bool → Bool → Visit A} {a : A}
      → Replays (k b b) (l b b) a
      → Replays (all_default x b k) (all_default x' b' l) a
  asks :
      {k l : Bool → Visit A} {a : A}
      → Replays (k false) (l true) a
      → Replays (is_reading k) (is_reading l) a
  extends :
      {e' : ℕ} {k l : ℕ → Visit A} {a : A}
      → Replays (k 0) (l 0) a
      → Replays (extensions 0 k) (extensions e' l) a
  stops : {q p : Visit A} {a : A} → Replays q p a → Replays (end_extensions q) (end_extensions p) a

module _ (subnormal : ℕ → ℕ) (zero_exact : subnormal 0 ≡ 0) (size : ℕ) where
  one_bit :
      (b : Bool) (rest : Bits)
      → read_bits 1 (reader (write_bits 1 (bit_of b) ++ rest)) ≡ (bit_of b, reader rest)
  one_bit true rest = read_bits-write_bits 1 1 rest (omega arith)
  one_bit false rest = read_bits-write_bits 1 0 rest (omega arith)

  bit_back : (b : Bool) → (bit_of b == 1) ≡ b
  bit_back true = refl
  bit_back false = refl

  pub read-write :
      {A : Type 0} {q p : Visit A} {a : A} (ext : ℕ) (bits rest : Bits)
      → Replays q p a
      → visit_write ext q ≡ some bits
      → visit_read subnormal size p (reader (bits ++ rest)) fresh_state
        ≡ finished a (reader rest) true
  unfolding visit_write visit_read within_bounds finish_extensions write_extensions
  read-write ext bits rest ends e = let nothing : [] ≡ bits = some-eq e in rw (← nothing)
  read-write ext bits rest (reads {c = c} {v = v} {k = k} fits later) e =
      let (first, w, e') = bind-eq-some (write_value c v) _ e in
      let (behind, w', e'') = bind-eq-some (visit_write ext (k v)) _ e' in
      let all : first ++ behind ≡ bits = some-eq e'' in
      rw
        (
          ← all,
          append_assoc first behind rest,
          read_value-write_value subnormal c v first (behind ++ rest) zero_exact fits w,
        )
        (read-write ext behind rest later w')
  read-write ext bits rest (branches later) e = read-write ext bits rest later e
  read-write ext bits rest (marks {b = b} {k = k} later) e =
      let (behind, w, e') = bind-eq-some (visit_write ext (k b b)) _ e in
      let all : write_bits 1 (bit_of b) ++ behind ≡ bits = some-eq e' in
      rw
        (
          ← all,
          append_assoc (write_bits 1 (bit_of b)) behind rest,
          one_bit b (behind ++ rest),
          bit_back b,
        )
        (read-write ext behind rest later w)
  read-write ext bits rest (asks later) e = read-write ext bits rest later e
  read-write ext bits rest (extends {k = k} later) e =
      let (behind, w, e') = bind-eq-some (visit_write ext (k 0)) _ e in
      let all : write_u64 0 ++ behind ≡ bits = some-eq e' in
      rw
        (
          ← all,
          append_assoc (write_u64 0) behind rest,
          (read_u64-write_u64 0 (behind ++ rest) (omega arith)).0,
        )
        (read-write ext behind rest later w)
  read-write ext bits rest (stops later) e = read-write ext bits rest later e
