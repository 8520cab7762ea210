-- ===== src/Fields/Replay.antt =====
-- The helpers of VisitFields, replayed: each rule takes one statement of a VisitFields off both visits.
use ssimulacra2_vulcan.Common.{ℕ, Bool, true, false, ◌≡◌, refl, if◌then◌else◌}
use ssimulacra2_vulcan.Fields.Coder.{Coder, Fits}
use ssimulacra2_vulcan.Fields.Visit.{Visit, ◌>>=◌, ◌>>◌, check, field, field_if, flag, flag_if}
use ssimulacra2_vulcan.Fields.Trip.{Replays, reads, branches}

module _ {A : Type 0} {a : A} where
  pub field-Replays :
      (c : Coder) (d d' v v' : ℕ) (k l : ℕ → Visit A)
      → Fits c v
      → Replays (k v) (l v) a
      → Replays (field c d v >>= k) (field c d' v' >>= l) a
  unfolding ◌>>=◌
  field-Replays c d d' v v' k l fits later = reads fits later

  pub flag-Replays :
      (d d' v v' : Bool) (k l : Bool → Visit A)
      → Replays (k v) (l v) a
      → Replays (flag d v >>= k) (flag d' v' >>= l) a
  unfolding ◌>>=◌ Fits
  flag-Replays d d' true v' k l later = reads tt later
  flag-Replays d d' false v' k l later = reads tt later

  -- A field that is not visited keeps the value that it has on each side.
  pub field_if-Replays :
      (c : Bool) (coder : Coder) (d d' v v' : ℕ) (k l : ℕ → Visit A)
      → (c ≡ true → Fits coder v)
      → Replays (k v) (l (if c then v else v')) a
      → Replays (field_if c coder d v >>= k) (field_if c coder d' v' >>= l) a
  unfolding ◌>>=◌
  field_if-Replays true coder d d' v v' k l fits later = branches (reads (fits refl) later)
  field_if-Replays false coder d d' v v' k l fits later = branches later

  pub flag_if-Replays :
      (c d d' v v' : Bool) (k l : Bool → Visit A)
      → Replays (k v) (l (if c then v else v')) a
      → Replays (flag_if c d v >>= k) (flag_if c d' v' >>= l) a
  unfolding ◌>>=◌ Fits
  flag_if-Replays true d d' true v' k l later = branches (reads tt later)
  flag_if-Replays true d d' false v' k l later = branches (reads tt later)
  flag_if-Replays false d d' v v' k l later = branches later

  -- A check that holds.
  pub check-Replays :
      (b b' : Bool) (k l : Visit A)
      → b ≡ true
      → b' ≡ true
      → Replays k l a
      → Replays (check b >> k) (check b' >> l) a
  unfolding ◌>>=◌
  check-Replays b b' k l h h' later = rw (h, h') later
