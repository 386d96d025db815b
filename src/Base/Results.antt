-- ===== src/Base/Results.antt =====
-- `Result<A, E>`, and the chain of steps that may fail with an error.
use mathlib.Core.Path.{◌≡◌, refl}
use mathlib.Core.Bool.{Bool, true, false}

pub data Result (E A : Type 0) : Type 0 where
  ok : A → Result E A
  err : E → Result E A

module _ {E : Type 0} where
  infixl 5 ◌>>=◌ ◌>>◌
  abbrev pub ◌>>=◌ : {A B : Type 0} → Result E A → (A → Result E B) → Result E B
  ok a >>= f = f a
  err e >>= f = err e

  abbrev pub ◌>>◌ : {B : Type 0} → Result E (Unit {0}) → Result E B → Result E B
  m >> k = m >>= λ _. k

  -- `if !b { return Err(e) }`
  abbrev pub require : Bool → E → Result E (Unit {0})
  require true e = ok tt
  require false e = err e

  -- What a chain that succeeds has passed.
  pub require-passed :
      {B : Type 0} (b : Bool) (e : E) (k : Result E B) {x : B}
      → (require b e >> k) ≡ ok x
      → (b ≡ true) × (k ≡ ok x)
  require-passed true e k h = (refl, h)
  require-passed false e k h = absurd (cc)

  pub bind-passed :
      {A B : Type 0} (m : Result E A) (k : A → Result E B) {x : B}
      → (m >>= k) ≡ ok x
      → (a : A) × (m ≡ ok a) × (k a ≡ ok x)
  bind-passed (ok a) k h = (a, refl, h)
  bind-passed (err e) k h = absurd (cc)

  pub ok-eq : {A : Type 0} {a b : A} → ◌≡◌ {A = Result E A} (ok a) (ok b) → a ≡ b
  ok-eq h = cc
