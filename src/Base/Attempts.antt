-- ===== src/Base/Attempts.antt =====
-- Functions that may raise: an exception of a type of the caller's choice, or a value. A chain of them
-- is a do block, and each step of a chain that returned is inverted by a lemma below.
use mathlib.Core.Path.{◌≡◌, refl}
use mathlib.Core.Bool.{Bool, true, false}
use mathlib.Core.Option.{Option, none, some}

pub data Attempt {ℓ} (Exception : Type 0) (A : Type ℓ) : Type ℓ where
  err : Exception → Attempt Exception A
  ok : A → Attempt Exception A

module _ {Exception : Type 0} where
  infixl 5 ◌>>=◌ ◌>>◌
  abbrev pub ◌>>=◌ {ℓ κ} :
      {A : Type ℓ} {B : Type κ}
      → Attempt Exception A
      → (A → Attempt Exception B)
      → Attempt Exception B
  err raised >>= next = err raised
  ok value >>= next = next value

  abbrev pub ◌>>◌ {ℓ} :
      {B : Type ℓ} → Attempt Exception (Unit {0}) → Attempt Exception B → Attempt Exception B
  first >> next = first >>= λ done. next

  -- `if b: raise e`
  abbrev pub raise_if : Bool → Exception → Attempt Exception (Unit {0})
  raise_if false e = ok tt
  raise_if true e = err e

  -- `if not b: raise e`
  abbrev pub guard : Bool → Exception → Attempt Exception (Unit {0})
  guard false e = err e
  guard true e = ok tt

  -- `if x is None: raise e`
  abbrev pub require {ℓ} : {A : Type ℓ} → Option A → Exception → Attempt Exception A
  require none e = err e
  require (some found) e = ok found

  pub >>=-eq-ok {ℓ κ} :
      {A : Type ℓ} {B : Type κ} (first : Attempt Exception A) (next : A → Attempt Exception B)
      {out : B}
      → (first >>= next) ≡ ok out
      → (value : A) × (first ≡ ok value) × (next value ≡ ok out)
  >>=-eq-ok (err raised) next h = cc
  >>=-eq-ok (ok value) next h = (value, refl, h)

  pub guard-eq-ok {κ} :
      {B : Type κ} (t : Bool) (e : Exception) (next : Attempt Exception B) {out : B}
      → (guard t e >> next) ≡ ok out
      → (t ≡ true) × (next ≡ ok out)
  guard-eq-ok true e next h = (refl, h)
  guard-eq-ok false e next h = cc

  pub raise_if-eq-ok {κ} :
      {B : Type κ} (t : Bool) (e : Exception) (next : Attempt Exception B) {out : B}
      → (raise_if t e >> next) ≡ ok out
      → (t ≡ false) × (next ≡ ok out)
  raise_if-eq-ok true e next h = cc
  raise_if-eq-ok false e next h = (refl, h)

  pub require-eq-ok {ℓ κ} :
      {A : Type ℓ} {B : Type κ} (o : Option A) (e : Exception) (next : A → Attempt Exception B)
      {out : B}
      → (require o e >>= next) ≡ ok out
      → (value : A) × (o ≡ some value) × (next value ≡ ok out)
  require-eq-ok none e next h = cc
  require-eq-ok (some value) e next h = (value, refl, h)

  pub ok-injective {ℓ} :
      {A : Type ℓ} {a b : A} → ◌≡◌ {A = Attempt Exception A} (ok a) (ok b) → a ≡ b
  ok-injective h = cc
