-- ===== src/Metadata/Defaults.antt =====
-- src/lib/jxl/fields.cc, SetDefaultVisitor: what holds where a VisitFields returns true with its defaults.
use ssimulacra2_vulcan.Common.{◌≡◌, refl, Bool, true, false}
use ssimulacra2_vulcan.Fields.Visit.{
  Visit, done, failure, number, conditional, all_default, is_reading, extensions, end_extensions,
  ◌>>=◌, ◌>>◌, check,
}
use ssimulacra2_vulcan.Fields.Visitors.{set_default}
use ssimulacra2_vulcan.Metadata.Always.{Always}
use ssimulacra2_vulcan.Metadata.Bundles.{or_failure}

-- With its defaults a visit returns a bundle that has P, or fails.
unfoldable pub Settles : {A : Type 0} → (A → Type 0) → Visit A → Type 0
Settles P (done a) = P a
Settles P failure = Unit {0}
Settles P (number c d v k) = Settles P (k d)
Settles P (conditional b k) = Settles P (k true)
Settles P (all_default a b k) = Settles P (k true false)
Settles P (is_reading k) = Settles P (k false)
Settles P (extensions e k) = Settles P (k 0)
Settles P (end_extensions t) = Settles P t

pub Settles-bind :
    {A B : Type 0} (P : A → Type 0) (Q : B → Type 0) (t : Visit A) (f : A → Visit B)
    → Settles P t
    → ((a : A) → P a → Settles Q (f a))
    → Settles Q (t >>= f)
unfolding Settles ◌>>=◌
Settles-bind P Q (done a) f h g = g a h
Settles-bind P Q failure f h g = tt
Settles-bind P Q (number c d v k) f h g = Settles-bind P Q (k d) f h g
Settles-bind P Q (conditional b k) f h g = Settles-bind P Q (k true) f h g
Settles-bind P Q (all_default a b k) f h g = Settles-bind P Q (k true false) f h g
Settles-bind P Q (is_reading k) f h g = Settles-bind P Q (k false) f h g
Settles-bind P Q (extensions e k) f h g = Settles-bind P Q (k 0) f h g
Settles-bind P Q (end_extensions t) f h g = Settles-bind P Q t f h g

Settles-any : {A : Type 0} (t : Visit A) → Settles (λ a. Unit {0}) t
unfolding Settles
Settles-any (done a) = tt
Settles-any failure = tt
Settles-any (number c d v k) = Settles-any (k d)
Settles-any (conditional b k) = Settles-any (k true)
Settles-any (all_default a b k) = Settles-any (k true false)
Settles-any (is_reading k) = Settles-any (k false)
Settles-any (extensions e k) = Settles-any (k 0)
Settles-any (end_extensions t) = Settles-any t

pub Settles-next :
    {A B : Type 0} (Q : B → Type 0) (t : Visit A) (f : A → Visit B)
    → ((a : A) → Settles Q (f a))
    → Settles Q (t >>= f)
Settles-next Q t f g = Settles-bind (λ a. Unit {0}) Q t f (Settles-any t) (λ a u. g a)

pub Settles-check :
    {A : Type 0} (P : A → Type 0) (b : Bool) (k : Visit A)
    → (b ≡ true → Settles P k)
    → Settles P (check b >> k)
unfolding Settles ◌>>=◌
Settles-check P true k h = h refl
Settles-check P false k h = tt

-- SetDefault returns what the defaults settle.
pub Settles-Always :
    {A : Type 0} (P : A → Type 0) (t : Visit A)
    → Settles P t
    → Always P (or_failure (set_default t))
unfolding Settles Always set_default
Settles-Always P (done a) h = h
Settles-Always P failure h = tt
Settles-Always P (number c d v k) h = Settles-Always P (k d) h
Settles-Always P (conditional b k) h = Settles-Always P (k true) h
Settles-Always P (all_default a b k) h = Settles-Always P (k true false) h
Settles-Always P (is_reading k) h = Settles-Always P (k false) h
Settles-Always P (extensions e k) h = Settles-Always P (k 0) h
Settles-Always P (end_extensions t) h = Settles-Always P t h
