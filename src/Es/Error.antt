-- ===== src/Es/Error.antt =====
-- es/errors.go: the sentinel errors, which callers match by `errors.Is`. Wrapping an error by `%w`
-- keeps what `errors.Is` sees, so it is the identity here.
use eventstore.Base.{ℕ, Outcome}

pub data Error : Type 0 where
  conflict constraint_violated stream_not_found event_not_found : Error
  tenant_missing invalid_stream_id unknown_schema_version : Error
  crypto_integrity kms_unavailable terminal state_not_found : Error
  -- wraps ErrChainBroken with the version at fault
  chain_broken : ℕ → Error
  -- an error with a text of its own and no sentinel, and one that other code returned
  plain : Error
  foreign : ℕ → Error

abbrev pub Result {ℓ} : Type ℓ → Type ℓ
Result A = Outcome Error A
