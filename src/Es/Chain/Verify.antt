-- ===== src/Es/Chain/Verify.antt =====
-- What VerifyStreamChain of es/chain.go accepts.
use eventstore.Base.{
  ◌≡◌, refl, ap, ◌↔◌, inl, inr, List, [], ◌∷◌, Text, ok, err, ◌>>=◌, if◌then◌else◌, Bool-cases,
}
use eventstore.Es.Error.{Result, chain_broken}
use eventstore.Es.Envelope.{Envelope}
use eventstore.Es.Wire.{Wire}
use eventstore.Es.Chain.{equal_hash, compute_chain_hash, verify_from}
use eventstore.Es.Chain.Digest.{equal_hash_iff}

module _ (w : Wire) where
  -- Each stored hash is the one computed from the event and the hash before it.
  abbrev pub Chained : Text → List Envelope → Type 0
  Chained prev [] = Unit
  Chained prev (e ∷ es) = (compute_chain_hash w prev e ≡ ok e.hash) × Chained e.hash es

  step_check :
      (prev : Text) (e : Envelope) (r : Result Text) (rest : Result (Unit {0}))
      → (r >>= λ got. if equal_hash got e.hash then rest else err (chain_broken e.version)) ≡ ok tt
      → (r ≡ ok e.hash) × (rest ≡ ok tt)
  step_check prev e (err x) rest h = cc
  step_check prev e (ok got) rest h = elim (Bool-cases (equal_hash got e.hash)) [
    | inl yes' ↦ (ap ok ((equal_hash_iff got e.hash).0 yes'), rw yes' at h)
    | inr no' ↦ cc (rw no' at h)
  ]

  verify_from-Chained :
      (prev : Text) (es : List Envelope) → verify_from w prev es ≡ ok tt → Chained prev es
  unfolding verify_from
  verify_from-Chained prev [] h = tt
  verify_from-Chained prev (e ∷ es) h =
      let s = step_check prev e (compute_chain_hash w prev e) (verify_from w e.hash es) h in
      (s.0, verify_from-Chained e.hash es s.1)

  Chained-verify_from :
      (prev : Text) (es : List Envelope) → Chained prev es → verify_from w prev es ≡ ok tt
  unfolding verify_from
  Chained-verify_from prev [] h = refl
  Chained-verify_from prev (e ∷ es) h =
      rw (h.0, (equal_hash_iff e.hash e.hash).1 refl) (Chained-verify_from e.hash es h.1)

  -- Verification from a hash succeeds exactly on the lists whose every stored hash is the one that
  -- the event and the hash before it give.
  pub verify_from_iff :
      (prev : Text) (es : List Envelope) → (verify_from w prev es ≡ ok tt) ↔ Chained prev es
  verify_from_iff prev es = (verify_from-Chained prev es, Chained-verify_from prev es)
