-- ===== src/Base/Errors.antt =====
-- What a Go function with an error result returns: `(value, nil)` or `(_, err)`.
use mathlib.Core.Path.{◌≡◌, refl}

-- Generic in the type of errors, which each part of the program instantiates.
pub data Outcome {ℓ} (E : Type 0) (A : Type ℓ) : Type ℓ where
  ok : A → Outcome E A
  err : E → Outcome E A

module _ {E : Type 0} where
  infixl 5 ◌>>=◌ ◌>>◌
  -- `if err != nil { return err }` between two steps.
  abbrev pub ◌>>=◌ {ℓ κ} : {A : Type ℓ} {B : Type κ} → Outcome E A → (A → Outcome E B) → Outcome E B
  err e >>= next = err e
  ok v >>= next = next v

  abbrev pub ◌>>◌ {ℓ κ} : {A : Type ℓ} {B : Type κ} → Outcome E A → Outcome E B → Outcome E B
  first >> next = first >>= λ _. next

  -- A chain of steps that succeeds passed its first step.
  abbrev pub Passed {ℓ κ} :
      {A : Type ℓ} {B : Type κ} → Outcome E A → (A → Outcome E B) → B → Type (ℓ ⊔ κ)
  Passed {A = A} first next out = (v : A) × (first ≡ ok v) × (next v ≡ ok out)

  pub bind-ok {ℓ κ} :
      {A : Type ℓ} {B : Type κ} {out : B} (first : Outcome E A) (next : A → Outcome E B)
      → (first >>= next) ≡ ok out
      → Passed first next out
  bind-ok (err e) next done = cc
  bind-ok (ok v) next done = (v, refl, done)
