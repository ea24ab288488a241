-- ===== src/Shred/Field.antt =====
-- The per-field wire format of shred/shred.go: version, nonce, ciphertext with its tag. AES-GCM is
-- an argument, as is the nonce that rand.Read gives.
use eventstore.Base.{
  ℕ, zero, subst, suc, ◌+◌, ◌≡◌, refl, ap, Bool, true, false, Option, none, some, [], ◌∷◌, ◌++◌,
  Text, ok, err, ltb, ◌==◌, not, arith, length, take, drop, length-append, if◌then◌else◌,
}
use eventstore.Es.Error.{Result, crypto_integrity, plain}

-- aes.NewCipher accepts a key or not; Seal and Open of its GCM with a nonce of 12 bytes and a tag of 16.
pub record Aead : Type 0 where
  pub new_cipher : Text → Bool
  pub seal : (key nonce plaintext : Text) → Text
  pub open_ : (key nonce ciphertext : Text) → Option Text

-- Open undoes Seal, which adds a tag of 16 bytes.
pub record AeadLaws (aead : Aead) : Type 0 where
  pub opens : (key nonce pt : Text) → aead.open_ key nonce (aead.seal key nonce pt) ≡ some pt
  pub tagged : (key nonce pt : Text) → length (aead.seal key nonce pt) ≡ length pt + 16

abbrev pub wire_v1_aes_gcm : ℕ
wire_v1_aes_gcm = 1

pub take-front : (n : ℕ) (xs ys : Text) → length xs ≡ n → take n (xs ++ ys) ≡ xs
take-front zero [] ys h = refl
take-front zero (x ∷ xs) ys h = absurd (omega arith)
take-front (suc n) [] ys h = absurd (omega arith)
take-front (suc n) (x ∷ xs) ys h = ap (◌∷◌ x) (take-front n xs ys (omega arith))

drop-front : (n : ℕ) (xs ys : Text) → length xs ≡ n → drop n (xs ++ ys) ≡ ys
drop-front zero [] ys h = refl
drop-front zero (x ∷ xs) ys h = absurd (omega arith)
drop-front (suc n) [] ys h = absurd (omega arith)
drop-front (suc n) (x ∷ xs) ys h = drop-front n xs ys (omega arith)

module _ (aead : Aead) where
  abbrev sealed_or : Bool → Result Text → Text → Text → Result Text
  sealed_or false nonce dek pt = err plain
  sealed_or true (err e) dek pt = err e
  sealed_or true (ok iv) dek pt = ok (wire_v1_aes_gcm ∷ (iv ++ aead.seal dek iv pt))

  -- aesGCMSealField.
  unfoldable pub seal_field : Text → Result Text → Text → Result Text
  seal_field dek nonce pt = sealed_or (aead.new_cipher dek) nonce dek pt

  abbrev opened_or : Option Text → Result Text
  opened_or none = err crypto_integrity
  opened_or (some pt) = ok pt

  -- aesGCMOpenField.
  unfoldable pub open_field : Text → Text → Result Text
  open_field dek [] = err crypto_integrity
  open_field dek (v ∷ body) =
      if not (v == wire_v1_aes_gcm)
      then err crypto_integrity
      else if not (aead.new_cipher dek)
      then err plain
      else if ltb (length body) 28
      then err crypto_integrity
      else opened_or (aead.open_ dek (take 12 body) (drop 12 body))

  -- The last of the guards of aesGCMOpenField.
  opened_body :
      (dek body pt : Text)
      → aead.new_cipher dek ≡ true
      → ltb (length body) 28 ≡ false
      → aead.open_ dek (take 12 body) (drop 12 body) ≡ some pt
      → open_field dek (1 ∷ body) ≡ ok pt
  unfolding open_field
  opened_body dek body pt key long opens = rw (key, long, opens) refl

  sealed-opens :
      (dek iv pt sealed : Text) (b : Bool)
      → AeadLaws aead
      → length iv ≡ 12
      → aead.new_cipher dek ≡ b
      → sealed_or b (ok iv) dek pt ≡ ok sealed
      → open_field dek sealed ≡ ok pt
  sealed-opens dek iv pt sealed false laws twelve key h = absurd (ground arith)
  sealed-opens dek iv pt sealed true laws twelve key h =
      let ct = aead.seal dek iv pt in
      let same : 1 ∷ (iv ++ ct) ≡ sealed = cc h in
      let size : length (iv ++ ct) ≡ 12 + (length pt + 16) =
        omega (arith, length-append iv ct, laws.tagged dek iv pt, twelve) in
      let long : ltb (length (iv ++ ct)) 28 ≡ false = ground (arith, size) in
      subst (λ z. open_field dek z ≡ ok pt) same
        (opened_body dek (iv ++ ct) pt key long
          (rw (take-front 12 iv ct twelve, drop-front 12 iv ct twelve) (laws.opens dek iv pt)))

  -- With laws of AES-GCM and a nonce of 12 bytes, opening a field that was sealed under a key gives
  -- its plaintext under that key.
  pub open_field-seal_field :
      (dek iv pt sealed : Text)
      → AeadLaws aead
      → length iv ≡ 12
      → seal_field dek (ok iv) pt ≡ ok sealed
      → open_field dek sealed ≡ ok pt
  unfolding seal_field
  open_field-seal_field dek iv pt sealed laws twelve h =
      sealed-opens dek iv pt sealed (aead.new_cipher dek) laws twelve refl h
