-- ===== src/Fields/Marked.antt =====
-- The helpers of VisitFields, for the size of what is written.
use ssimulacra2_vulcan.Common.{ℕ, Bool, true, false, ◌≡◌}
use ssimulacra2_vulcan.Fields.Coder.{Coder}
use ssimulacra2_vulcan.Fields.Visit.{Visit, ◌>>=◌, ◌>>◌, check, field, field_if, flag, flag_if}
use ssimulacra2_vulcan.Fields.Size.{IsMarked, reads, branches}

module _ {A : Type 0} {a : A} where
  pub field-IsMarked :
      (c : Coder) (d v : ℕ) (k : ℕ → Visit A) → IsMarked (k v) a → IsMarked (field c d v >>= k) a
  unfolding ◌>>=◌
  field-IsMarked c d v k later = reads later

  pub flag-IsMarked :
      (d v : Bool) (k : Bool → Visit A) → IsMarked (k v) a → IsMarked (flag d v >>= k) a
  unfolding ◌>>=◌
  flag-IsMarked d true k later = reads later
  flag-IsMarked d false k later = reads later

  pub field_if-IsMarked :
      (c : Bool) (coder : Coder) (d v : ℕ) (k : ℕ → Visit A)
      → IsMarked (k v) a
      → IsMarked (field_if c coder d v >>= k) a
  unfolding ◌>>=◌
  field_if-IsMarked true coder d v k later = branches (reads later)
  field_if-IsMarked false coder d v k later = branches later

  pub flag_if-IsMarked :
      (c d v : Bool) (k : Bool → Visit A) → IsMarked (k v) a → IsMarked (flag_if c d v >>= k) a
  unfolding ◌>>=◌
  flag_if-IsMarked true d true k later = branches (reads later)
  flag_if-IsMarked true d false k later = branches (reads later)
  flag_if-IsMarked false d v k later = branches later

  pub check-IsMarked :
      (b : Bool) (k : Visit A) → b ≡ true → IsMarked k a → IsMarked (check b >> k) a
  unfolding ◌>>=◌
  check-IsMarked b k h later = rw h later
