-- ===== src/Fields/Visitors.antt =====
-- src/lib/jxl/fields.cc: the visitors, and the functions of Bundle that run them.
use ssimulacra2_vulcan.Common.{
  ℕ, zero, suc, ◌+◌, ◌-◌, ◌*◌, ◌/◌, ◌%◌, ◌^◌, Bool, true, false, not, ◌&&◌, Option, none, some, [],
  ◌++◌, length, ltb, leb, ◌==◌, if◌then◌else◌, ◌>>=◌,
}
use ssimulacra2_vulcan.Fields.Bits.{Bits, Reader, within_bounds, read_bits, write_bits}
use ssimulacra2_vulcan.Fields.VarInt.{write_u64, read_u64, u64_size}
use ssimulacra2_vulcan.Fields.Coder.{
  Coder, bits, u32, u64, f16, write_value, value_size, max_size, read_value,
}
use ssimulacra2_vulcan.Fields.Visit.{
  Visit, done, failure, number, conditional, all_default, is_reading, extensions, end_extensions,
  bit_of,
}

-- hwy::PopCount of a number below 2 ^ fuel
unfoldable pub pop_count : ℕ → ℕ → ℕ
pop_count zero x = 0
pop_count (suc fuel) x = x % 2 + pop_count fuel (x / 2)

-- SetDefaultVisitor: every field becomes its default, also behind a condition.
unfoldable pub set_default : {A : Type 0} → Visit A → Option A
set_default (done a) = some a
set_default failure = none
set_default (number c d v k) = set_default (k d)
set_default (conditional b k) = set_default (k true)
set_default (all_default a b k) = set_default (k true false)
set_default (is_reading k) = set_default (k false)
set_default (extensions e k) = set_default (k 0)
set_default (end_extensions t) = set_default t

-- AllDefaultVisitor; floats are compared by `near`.
unfoldable pub is_default : (ℕ → ℕ → Bool) → Coder → ℕ → ℕ → Bool
is_default near (bits n) v d = v == d
is_default near (u32 enc) v d = v == d
is_default near u64 v d = v == d
is_default near f16 v d = near v d

-- none where Bundle::AllDefault aborts.
unfoldable pub are_default : {A : Type 0} → (ℕ → ℕ → Bool) → Visit A → Option Bool
unfolding is_default
are_default near (done a) = some true
are_default near failure = none
are_default near (number c d v k) = do
  rest ← are_default near (k v)
  some (is_default near c v d && rest)
are_default near (conditional b k) = are_default near (k b)
are_default near (all_default a b k) = are_default near (k b false)
are_default near (is_reading k) = are_default near (k false)
are_default near (extensions e k) = do rest ← are_default near (k e); some (e == 0 && rest)
are_default near (end_extensions t) = are_default near t

-- MaxBitsVisitor: an upper bound, without extensions.
unfoldable pub max_bits : {A : Type 0} → Visit A → ℕ
max_bits (done a) = 0
max_bits failure = 0
max_bits (number c d v k) = max_size c + max_bits (k v)
max_bits (conditional b k) = max_bits (k true)
max_bits (all_default a b k) = 1 + max_bits (k b false)
max_bits (is_reading k) = max_bits (k false)
max_bits (extensions e k) = max_bits (k e)
max_bits (end_extensions t) = max_bits t

-- The members of CanEncodeVisitor.
pub record Sizes : Type 0 where
  pub encoded_bits : ℕ
  pub extensions : ℕ
  pub pos_after_ext : ℕ

abbrev pub no_sizes : Sizes
no_sizes = record { encoded_bits = 0; extensions = 0; pos_after_ext = 0 }

abbrev pub add_size : Sizes → ℕ → Sizes
add_size s n = record s { encoded_bits = s.encoded_bits + n }

-- CanEncodeVisitor; none where a value cannot be encoded. It sets the field all_default.
unfoldable pub visit_sizes : {A : Type 0} → Visit A → Sizes → Option (A × Sizes)
visit_sizes (done a) s = some (a, s)
visit_sizes failure s = none
visit_sizes (number c d v k) s = do n ← value_size c v; visit_sizes (k v) (add_size s n)
visit_sizes (conditional b k) s = visit_sizes (k b) s
visit_sizes (all_default a b k) s = visit_sizes (k a a) (add_size s 1)
visit_sizes (is_reading k) s = visit_sizes (k false) s
visit_sizes (extensions e k) s =
    let counted = add_size s (u64_size e) in
    visit_sizes (k e) (
      if e == 0
      then record counted { extensions = e }
      else record counted { extensions = e; pos_after_ext = counted.encoded_bits })
visit_sizes (end_extensions t) s = visit_sizes t s

-- GetSizes: the bits of the extensions, and of everything.
unfoldable pub get_sizes : Sizes → ℕ × ℕ
unfolding pop_count
get_sizes s =
    if s.pos_after_ext == 0
    then (0, s.encoded_bits)
    else let extension_bits = s.encoded_bits - s.pos_after_ext in
      (
        extension_bits,
        s.encoded_bits + u64_size extension_bits + (pop_count 64 (s.extensions) - 1) * u64_size 0,
      )

unfoldable pub can_encode : {A : Type 0} → Visit A → Option (A × ℕ × ℕ)
can_encode t = do
  sized ← visit_sizes t no_sizes
  let (extension_bits, total_bits) = get_sizes (sized.1)
  some (sized.0, extension_bits, total_bits)

-- The sizes of the extensions but the first.
unfoldable pub write_zeros : ℕ → Bits
write_zeros zero = []
write_zeros (suc n) = write_u64 0 ++ write_zeros n

unfoldable pub write_extensions : ℕ → ℕ → Bits
unfolding write_zeros
write_extensions extension_bits e =
    if e == 0
    then write_u64 e
    else write_u64 e ++ (write_u64 extension_bits ++ write_zeros (pop_count 64 e - 1))

-- WriteVisitor; none where a value cannot be written.
unfoldable pub visit_write : {A : Type 0} → ℕ → Visit A → Option Bits
visit_write ext (done a) = some []
visit_write ext failure = none
visit_write ext (number c d v k) = do
  first ← write_value c v
  rest ← visit_write ext (k v)
  some (first ++ rest)
visit_write ext (conditional b k) = visit_write ext (k b)
visit_write ext (all_default a b k) = do
  rest ← visit_write ext (k b b)
  some (write_bits 1 (bit_of b) ++ rest)
visit_write ext (is_reading k) = visit_write ext (k false)
visit_write ext (extensions e k) = do
  rest ← visit_write ext (k e)
  some (write_extensions ext e ++ rest)
visit_write ext (end_extensions t) = visit_write ext t

-- Bundle::Write, where `visit` is the bundle's VisitFields.
unfoldable pub bundle_write : {A : Type 0} → (A → Visit A) → A → Option Bits
bundle_write visit h = do sized ← can_encode (visit h); visit_write (sized.1) (visit (sized.0))

-- How a visit of ReadVisitor ends. A finished one has the bundle, the reader and ok_.
pub data ReadResult (A : Type 0) : Type 0 where
  failed not_enough_bytes : ReadResult A
  finished : A → Reader → Bool → ReadResult A

-- What BeginExtensions reads: a size for each extension, with their sum in 64 bits.
unfoldable pub read_ext_sizes : ℕ → Reader → ℕ → ReadResult ℕ
read_ext_sizes zero r total = finished total r true
read_ext_sizes (suc n) r total =
    let (size, rest) = read_u64 r in
    let more = read_ext_sizes n rest (total + size) in
    if not (within_bounds rest)
    then not_enough_bytes
    else if leb (2 ^ 64) (total + size)
    then failed
    else more

-- SkipBits, of at least one bit.
unfoldable pub skip_bits : ℕ → Reader → Reader
skip_bits n (r, over) = (read_bits n (r, over)).1

-- The members of ReadVisitor: the position behind the sizes of the extensions and the sum of these.
pub record ReadState : Type 0 where
  pub ok : Bool
  pub pos_after_ext_size : ℕ
  pub total_extension_bits : ℕ

abbrev pub fresh_state : ReadState
fresh_state = record { ok = true; pos_after_ext_size = 0; total_extension_bits = 0 }

abbrev pub value_or : Option ℕ → ℕ → ℕ
value_or none v = v
value_or (some w) v = w

abbrev pub is_some : Option ℕ → Bool
is_some none = false
is_some (some w) = true

module _ (subnormal : ℕ → ℕ) (size : ℕ) where
  -- TotalBitsConsumed, for a reader of `size` bits that has not read behind its end.
  abbrev pub total_bits_consumed : Reader → ℕ
  total_bits_consumed r = size - length (r.0)

  -- EndExtensions, before the rest is visited.
  unfoldable pub finish_extensions : Reader → ReadState → ReadResult (Unit {0})
  finish_extensions r s =
      let end = s.pos_after_ext_size + s.total_extension_bits in
      let remaining = end - total_bits_consumed r in
      let skipped = skip_bits remaining r in
      if s.pos_after_ext_size == 0
      then finished tt r (s.ok)
      else if leb (2 ^ 64) end
      then failed
      else if ltb end (total_bits_consumed r)
      then failed
      else if remaining == 0
      then finished tt r (s.ok)
      else if not (within_bounds skipped)
      then not_enough_bytes
      else finished tt skipped (s.ok)

  unfoldable pub visit_read : {A : Type 0} → Visit A → Reader → ReadState → ReadResult A
  visit_read (done a) r s = finished a r (s.ok)
  visit_read failure r s = failed
  visit_read (number c d v k) r s =
      let (w, rest) = read_value subnormal c r in
      if not (within_bounds rest)
      then not_enough_bytes
      else visit_read (k (value_or w v)) rest (record s { ok = s.ok && is_some w })
  visit_read (conditional b k) r s = visit_read (k b) r s
  visit_read (all_default a b k) r s =
      let (w, rest) = read_bits 1 r in
      let (flag, result) = if within_bounds rest then (w == 1, w == 1) else (b, false) in
      visit_read (k flag result) rest s
  visit_read (is_reading k) r s = visit_read (k true) r s
  visit_read (extensions e k) r s =
      let (w, rest) = read_u64 r in
      if not (within_bounds rest)
      then not_enough_bytes
      else if w == 0
      then visit_read (k w) rest s
      else elim (read_ext_sizes (pop_count 64 w) rest (s.total_extension_bits)) [
        | failed ↦ failed
        | not_enough_bytes ↦ not_enough_bytes
        | finished total behind fine ↦ visit_read (k w) behind (record s {
          pos_after_ext_size = total_bits_consumed behind;
          total_extension_bits = total;
        })
      ]
  visit_read (end_extensions t) r s = elim (finish_extensions r s) [
    | failed ↦ failed
    | not_enough_bytes ↦ not_enough_bytes
    | finished u behind fine ↦ visit_read t behind s
  ]

  -- Bundle::Read, into a bundle with its own values so far.
  unfoldable pub bundle_read : {A : Type 0} → (A → Visit A) → A → Reader → ReadResult A
  bundle_read visit h r = visit_read (visit h) r fresh_state

-- Bundle::CanRead
unfoldable pub can_read : {A : Type 0} → ReadResult A → Bool
can_read failed = true
can_read not_enough_bytes = false
can_read (finished a r ok) = true
