-- ===== src/Es/Chain/Tamper.antt =====
-- The hash chain of es/chain.go as evidence: its last hash pins down every event before it.
use eventstore.Base.{
  ◌≡◌, refl, sym, ap, ◌∙◌, ◌⊎◌, inl, inr, ◌≢◌, List, [], ◌∷◌, ◌++◌, Text, ok, err, ◌>>=◌, arith,
  ◌==◌, if◌then◌else◌, length, text_eq, text_eq_iff, Bool-cases, map,
}
use eventstore.Es.Error.{Error, Result}
use eventstore.Es.Envelope.{Envelope}
use eventstore.Es.Wire.{Wire}
use eventstore.Es.Chain.{canonical_envelope_bytes, compute_chain_hash, verify_from}
use eventstore.Es.Chain.Verify.{Chained, verify_from_iff}

-- The hash of the last event, or the one before the first.
abbrev pub final_hash : Text → List Envelope → Text
final_hash prev [] = prev
final_hash prev (e ∷ es) = final_hash e.hash es

append-injective : (a b s t : Text) → length a ≡ length b → a ++ s ≡ b ++ t → (a ≡ b) × (s ≡ t)
append-injective [] [] s t l h = (refl, h)
append-injective [] (y ∷ b) s t l h = absurd (omega arith)
append-injective (x ∷ a) [] s t l h = absurd (omega arith)
append-injective (x ∷ a) (y ∷ b) s t l h =
    let tails = append-injective a b s t (omega arith) (cc) in (cc, tails.1)

module _ (w : Wire) where
  -- Two texts with one digest.
  pub record Collision : Type 0 where
    pub left : Text
    pub right : Text
    pub differ : left ≢ right
    pub collide : w.sha256 left ≡ w.sha256 right

  same_digest : (a b : Text) → w.sha256 a ≡ w.sha256 b → Collision ⊎ (a ≡ b)
  same_digest a b h = elim (Bool-cases (text_eq a b)) [
    | inl same ↦ inr ((text_eq_iff a b).0 same)
    | inr other ↦
        inl (record { left = a; right = b; differ = λ e. cc ((text_eq_iff a b).1 e); collide = h })
  ]

  hash_inputs :
      (prev : Text) (e : Envelope) (r : Result Text) (h : Text)
      → (if length prev == 32 then (r >>= λ b. ok (w.sha256 (prev ++ b))) else err Error.plain)
        ≡ ok h
      → (b : Text) × (r ≡ ok b) × (h ≡ w.sha256 (prev ++ b)) × (length prev ≡ 32)
  hash_inputs prev e (err x) h k = absurd (ground arith)
  hash_inputs prev e (ok b) h k = (b, refl, ground arith, ground arith)

  compute-inputs :
      (prev : Text) (e : Envelope) (h : Text)
      → compute_chain_hash w prev e ≡ ok h
      → (b : Text) × (canonical_envelope_bytes w e ≡ ok b)
        × (h ≡ w.sha256 (prev ++ b))
        × (length prev ≡ 32)
  unfolding compute_chain_hash
  compute-inputs prev e h k = hash_inputs prev e (canonical_envelope_bytes w e) h k

  same_hash :
      (p q : Text) (e f : Envelope)
      → compute_chain_hash w p e ≡ ok e.hash
      → compute_chain_hash w q f ≡ ok f.hash
      → e.hash ≡ f.hash
      → Collision ⊎ ((p ≡ q) × (canonical_envelope_bytes w e ≡ canonical_envelope_bytes w f))
  same_hash p q e f he hf k =
      let i = compute-inputs p e e.hash he in
      let j = compute-inputs q f f.hash hf in
      elim (same_digest (p ++ i.0) (q ++ j.0) (sym i.2 ∙ k ∙ j.2)) [
        | inl c ↦ inl c
        | inr same ↦
            let parts = append-injective p q i.0 j.0 (omega arith) same in
            inr (parts.0, i.1 ∙ ap ok parts.1 ∙ sym j.1)
      ]

  same_chains :
      (p q : Text) (xs ys : List Envelope)
      → Chained w p xs
      → Chained w q ys
      → length xs ≡ length ys
      → final_hash p xs ≡ final_hash q ys
      → Collision
        ⊎ ((p ≡ q) × (map (canonical_envelope_bytes w) xs ≡ map (canonical_envelope_bytes w) ys))
  same_chains p q [] [] hx hy l k = inr (k, refl)
  same_chains p q [] (f ∷ ys) hx hy l k = absurd (omega arith)
  same_chains p q (e ∷ xs) [] hx hy l k = absurd (omega arith)
  same_chains p q (e ∷ xs) (f ∷ ys) hx hy l k =
      elim (same_chains e.hash f.hash xs ys hx.1 hy.1 (omega arith) k) [
        | inl c ↦ inl c
        | inr rest ↦ elim (same_hash p q e f hx.0 hy.0 rest.0) [
          | inl c ↦ inl c
          | inr here ↦ inr (here.0, cc (here.1, rest.1))
        ]
      ]

  -- Two verified chains of one length that end in one hash start from one hash and hold the same
  -- events, as far as the hash covers them, or else they show two texts with one SHA-256 digest.
  pub tamper_evidence :
      (p q : Text) (xs ys : List Envelope)
      → verify_from w p xs ≡ ok tt
      → verify_from w q ys ≡ ok tt
      → length xs ≡ length ys
      → final_hash p xs ≡ final_hash q ys
      → Collision
        ⊎ ((p ≡ q) × (map (canonical_envelope_bytes w) xs ≡ map (canonical_envelope_bytes w) ys))
  tamper_evidence p q xs ys hx hy l k =
      same_chains p q xs ys ((verify_from_iff w p xs).0 hx) ((verify_from_iff w q ys).0 hy) l k
