-- ===== src/Es/Chain/Digest.antt =====
-- equalHash of es/chain.go compares digests.
use Prim.Native.Nat.{bit_or, bit_xor}
use eventstore.Base.{ℕ, ◌≡◌, refl, ◌↔◌, true, [], ◌∷◌, Text, arith, length}
use eventstore.Base.Bits.{bit_xor-eq_zero, bit_xor_self, bit_or-eq_zero}
use eventstore.Es.Chain.{byte_diff, equal_hash}

byte_diff-zero :
    (s t : Text) (d : ℕ) → length s ≡ length t → byte_diff s t d ≡ 0 → (d ≡ 0) × (s ≡ t)
unfolding byte_diff
byte_diff-zero [] [] d l h = (h, refl)
byte_diff-zero [] (b ∷ t) d l h = absurd (omega arith)
byte_diff-zero (a ∷ s) [] d l h = absurd (omega arith)
byte_diff-zero (a ∷ s) (b ∷ t) d l h =
    let rest = byte_diff-zero s t (bit_or d (bit_xor a b)) (omega arith) h in
    let bits = bit_or-eq_zero d (bit_xor a b) rest.0 in
    (bits.0, cc (bit_xor-eq_zero a b bits.1, rest.1))

byte_diff_self : (s : Text) → byte_diff s s 0 ≡ 0
unfolding byte_diff
byte_diff_self [] = refl
byte_diff_self (a ∷ s) = rw (bit_xor_self a) (byte_diff_self s)

-- The constant-time comparison of two digests holds exactly when they are the same bytes.
pub equal_hash_iff : (a b : Text) → (equal_hash a b ≡ true) ↔ (a ≡ b)
unfolding equal_hash
equal_hash_iff a b = (
  (λ h. (byte_diff-zero a b 0 (ground arith) (ground arith)).1),
  (λ e. rw e (ground (arith, byte_diff_self b))),
)
