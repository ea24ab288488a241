-- ===== src/CmdWorkflow/Act.antt =====
-- A call that may change its world and may fail. It has no result when the fuel ran out, or when
-- the program panics.
use eventstore.Base.{◌≡◌, refl, arith, Option, none, some, ok, err}
use eventstore.Es.Error.{Result}

-- What a call returns that returns an error or nil.
abbrev pub Done : Type 0
Done = Unit

abbrev pub Act : Type 0 → Type 0 → Type 0
Act W A = W → Option (Result A × W)

-- The call after the one that gave the first argument.
abbrev pub carry : {W A B : Type 0} → Option (Result A × W) → (A → Act W B) → Option (Result B × W)
carry none f = none
carry (some (err e, w)) f = some (err e, w)
carry (some (ok a, w)) f = f a w

infixl 5 ◌>>=◌
abbrev pub ◌>>=◌ : {W A B : Type 0} → Act W A → (A → Act W B) → Act W B
◌>>=◌ m f w = carry (m w) f

module _ {W A : Type 0} where
  abbrev pub give : Result A → Act W A
  give r w = some (r, w)

  abbrev pub stop : Act W A
  stop w = none

  -- A call that always returns.
  abbrev pub lift : (W → Result A × W) → Act W A
  lift f w = some (f w)

-- A call that knows the second part of the world only.
abbrev pub put_back : {J D A : Type 0} → J → Option (Result A × D) → Option (Result A × (J × D))
put_back j none = none
put_back j (some (r, d)) = some (r, (j, d))

abbrev pub within : {J D A : Type 0} → Act D A → Act (J × D) A
within m w = put_back w.0 (m w.1)

-- A successful chain of two calls, taken apart.
pub carry-ok :
    {W A B : Type 0} (o : Option (Result A × W)) (f : A → Act W B) (b : B) (w' : W)
    → carry o f ≡ some (ok b, w')
    → (a : A) × (w₁ : W) × (o ≡ some (ok a, w₁)) × (f a w₁ ≡ some (ok b, w'))
carry-ok none f b w' h = absurd (ground arith)
carry-ok (some (err e, w)) f b w' h = absurd (ground arith)
carry-ok (some (ok a, w)) f b w' h = (a, w, refl, h)
