-- ===== src/Fields/BundleTrip.antt =====
-- src/lib/jxl/fields.cc: Bundle::Write and Bundle::Read.
use ssimulacra2_vulcan.Common.{ℕ, ◌≡◌, ◌++◌, true, some}
use ssimulacra2_vulcan.Fields.Bits.{Bits, reader}
use ssimulacra2_vulcan.Fields.Visit.{Visit}
use ssimulacra2_vulcan.Fields.Visitors.{bundle_write, bundle_read, finished}
use ssimulacra2_vulcan.Fields.Size.{IsMarked, bundle_write-inv}
use ssimulacra2_vulcan.Fields.Trip.{Replays, read-write}

-- Let a bundle g have no extensions and its fields all_default set, and let a visit of h that gets the
-- values of g end with a. Then what Bundle::Write writes of g is what Bundle::Read reads into h: it
-- ends with a, behind the last bit that was written, and without an error.
pub bundle_read-bundle_write :
    (subnormal : ℕ → ℕ) (size : ℕ) {A : Type 0} (visit : A → Visit A) (g h a : A) (bits rest : Bits)
    → subnormal 0 ≡ 0
    → IsMarked (visit g) g
    → Replays (visit g) (visit h) a
    → bundle_write visit g ≡ some bits
    → bundle_read subnormal size visit h (reader (bits ++ rest)) ≡ finished a (reader rest) true
unfolding bundle_read
bundle_read-bundle_write subnormal size visit g h a bits rest exact marked replays e =
    let (ext, w) = bundle_write-inv visit g bits marked e in
    read-write subnormal exact size ext bits rest replays w
