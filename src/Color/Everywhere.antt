-- ===== src/Color/Everywhere.antt =====
-- src/lib/jxl/fields.cc, ReadVisitor and SetDefaultVisitor: what holds on each path of a VisitFields that either of them takes.
use ssimulacra2_vulcan.Common.{ℕ, ◌≡◌, refl, Bool, true, false, Option, none, some, arith}
use ssimulacra2_vulcan.Fields.Visit.{
  Visit, done, failure, number, conditional, all_default, is_reading, extensions, end_extensions,
  ◌>>=◌, ◌>>◌, check,
}
use ssimulacra2_vulcan.Metadata.Always.{Always}
use ssimulacra2_vulcan.Metadata.Defaults.{Settles}
use ssimulacra2_vulcan.Metadata.Bundles.{or_failure}
use ssimulacra2_vulcan.Color.Visit.{visit_nested, visit_enum}

-- A condition may go its own way, and is true for SetDefaultVisitor.
unfoldable pub Everywhere : {A : Type 0} → (A → Type 0) → Visit A → Type 0
Everywhere P (done a) = P a
Everywhere P failure = Unit {0}
Everywhere P (number c d v k) = (w : ℕ) → Everywhere P (k w)
Everywhere P (conditional b k) = Everywhere P (k b) × Everywhere P (k true)
Everywhere P (all_default a b k) = (now skip : Bool) → Everywhere P (k now skip)
Everywhere P (is_reading k) = Everywhere P (k true) × Everywhere P (k false)
Everywhere P (extensions e k) = (w : ℕ) → Everywhere P (k w)
Everywhere P (end_extensions t) = Everywhere P t

pub Everywhere-Always : {A : Type 0} (P : A → Type 0) (t : Visit A) → Everywhere P t → Always P t
unfolding Everywhere Always
Everywhere-Always P (done a) h = h
Everywhere-Always P failure h = tt
Everywhere-Always P (number c d v k) h = λ w got. Everywhere-Always P (k w) (h w)
Everywhere-Always P (conditional b k) (h, h') = Everywhere-Always P (k b) h
Everywhere-Always P (all_default a b k) h =
    λ now skip. Everywhere-Always P (k now skip) (h now skip)
Everywhere-Always P (is_reading k) (h, h') = Everywhere-Always P (k true) h
Everywhere-Always P (extensions e k) h = λ w. Everywhere-Always P (k w) (h w)
Everywhere-Always P (end_extensions t) h = Everywhere-Always P t h

pub Everywhere-Settles : {A : Type 0} (P : A → Type 0) (t : Visit A) → Everywhere P t → Settles P t
unfolding Everywhere Settles
Everywhere-Settles P (done a) h = h
Everywhere-Settles P failure h = tt
Everywhere-Settles P (number c d v k) h = Everywhere-Settles P (k d) (h d)
Everywhere-Settles P (conditional b k) (h, h') = Everywhere-Settles P (k true) h'
Everywhere-Settles P (all_default a b k) h = Everywhere-Settles P (k true false) (h true false)
Everywhere-Settles P (is_reading k) (h, h') = Everywhere-Settles P (k false) h'
Everywhere-Settles P (extensions e k) h = Everywhere-Settles P (k 0) (h 0)
Everywhere-Settles P (end_extensions t) h = Everywhere-Settles P t h

pub Everywhere-bind :
    {A B : Type 0} (P : A → Type 0) (Q : B → Type 0) (t : Visit A) (f : A → Visit B)
    → Everywhere P t
    → ((a : A) → P a → Everywhere Q (f a))
    → Everywhere Q (t >>= f)
unfolding Everywhere ◌>>=◌
Everywhere-bind P Q (done a) f h g = g a h
Everywhere-bind P Q failure f h g = tt
Everywhere-bind P Q (number c d v k) f h g = λ w. Everywhere-bind P Q (k w) f (h w) g
Everywhere-bind P Q (conditional b k) f (h, h') g =
    (Everywhere-bind P Q (k b) f h g, Everywhere-bind P Q (k true) f h' g)
Everywhere-bind P Q (all_default a b k) f h g =
    λ now skip. Everywhere-bind P Q (k now skip) f (h now skip) g
Everywhere-bind P Q (is_reading k) f (h, h') g =
    (Everywhere-bind P Q (k true) f h g, Everywhere-bind P Q (k false) f h' g)
Everywhere-bind P Q (extensions e k) f h g = λ w. Everywhere-bind P Q (k w) f (h w) g
Everywhere-bind P Q (end_extensions t) f h g = Everywhere-bind P Q t f h g

-- Nothing is asked.
pub Everywhere-any : {A : Type 0} (t : Visit A) → Everywhere (λ a. Unit {0}) t
unfolding Everywhere
Everywhere-any (done a) = tt
Everywhere-any failure = tt
Everywhere-any (number c d v k) = λ w. Everywhere-any (k w)
Everywhere-any (conditional b k) = (Everywhere-any (k b), Everywhere-any (k true))
Everywhere-any (all_default a b k) = λ now skip. Everywhere-any (k now skip)
Everywhere-any (is_reading k) = (Everywhere-any (k true), Everywhere-any (k false))
Everywhere-any (extensions e k) = λ w. Everywhere-any (k w)
Everywhere-any (end_extensions t) = Everywhere-any t

pub Everywhere-next :
    {A B : Type 0} (Q : B → Type 0) (t : Visit A) (f : A → Visit B)
    → ((a : A) → Everywhere Q (f a))
    → Everywhere Q (t >>= f)
Everywhere-next Q t f g = Everywhere-bind (λ a. Unit {0}) Q t f (Everywhere-any t) (λ a u. g a)

pub Everywhere-check :
    {A : Type 0} (P : A → Type 0) (b : Bool) (k : Visit A)
    → (b ≡ true → Everywhere P k)
    → Everywhere P (check b >> k)
unfolding Everywhere ◌>>=◌
Everywhere-check P true k h = h refl
Everywhere-check P false k h = tt

pub Everywhere-or_failure :
    {A : Type 0} (P : A → Type 0) (o : Option A)
    → ((a : A) → o ≡ some a → P a)
    → Everywhere P (or_failure o)
unfolding Everywhere
Everywhere-or_failure P none h = tt
Everywhere-or_failure P (some a) h = h a refl

-- A nested field: what is visited has P, and so has what is left if the condition does not hold.
pub Everywhere-visit_nested :
    {A : Type 0} (P : A → Type 0) (c : Bool) (visit : A → Visit A) (h : A)
    → Everywhere P (visit h)
    → (c ≡ false → P h)
    → Everywhere P (visit_nested c visit h)
unfolding Everywhere
Everywhere-visit_nested P true visit h v k = (v, v)
Everywhere-visit_nested P false visit h v k = (k refl, v)

-- What Enum returns is a member of the enumeration.
pub Everywhere-visit_enum :
    (is_valid : ℕ → Bool) (d v : ℕ) → Everywhere (λ w. is_valid w ≡ true) (visit_enum is_valid d v)
unfolding Everywhere ◌>>=◌
Everywhere-visit_enum is_valid d v =
    λ w. Everywhere-check (λ w. is_valid w ≡ true) (is_valid w) (done w) (λ h. h)

pub Everywhere-map :
    {A : Type 0} (P Q : A → Type 0) (t : Visit A)
    → ((a : A) → P a → Q a)
    → Everywhere P t
    → Everywhere Q t
unfolding Everywhere
Everywhere-map P Q (done a) g h = g a h
Everywhere-map P Q failure g h = tt
Everywhere-map P Q (number c d v k) g h = λ w. Everywhere-map P Q (k w) g (h w)
Everywhere-map P Q (conditional b k) g (h, h') =
    (Everywhere-map P Q (k b) g h, Everywhere-map P Q (k true) g h')
Everywhere-map P Q (all_default a b k) g h =
    λ now skip. Everywhere-map P Q (k now skip) g (h now skip)
Everywhere-map P Q (is_reading k) g (h, h') =
    (Everywhere-map P Q (k true) g h, Everywhere-map P Q (k false) g h')
Everywhere-map P Q (extensions e k) g h = λ w. Everywhere-map P Q (k w) g (h w)
Everywhere-map P Q (end_extensions t) g h = Everywhere-map P Q t g h

-- What is visited has P, if it is visited.
pub Everywhere-visited :
    {A : Type 0} (P : A → Type 0) (c : Bool) (visit : A → Visit A) (h : A)
    → Everywhere P (visit h)
    → Everywhere (λ a. c ≡ true → P a) (visit_nested c visit h)
Everywhere-visited P c visit h v =
    Everywhere-visit_nested (λ a. c ≡ true → P a) c visit h
      (Everywhere-map P (λ a. c ≡ true → P a) (visit h) (λ a p e. p) v)
      (λ off on. absurd (ground arith))
