-- ===== src/Es/Chain.antt =====
-- es/chain.go: the hash chain of a stream, its verification and the backfill of old streams.
pub mod Digest
pub mod Verify
pub mod Tamper
use Prim.Native.Nat.{bit_or, bit_xor}
use eventstore.Base.{
  ℕ, zero, suc, ◌+◌, Bool, true, false, List, [], ◌∷◌, ◌++◌, Text, ok, err, ◌>>=◌, ◌==◌,
  if◌then◌else◌, length,
}
use eventstore.Es.Error.{Error, Result, plain, chain_broken}
use eventstore.Es.StreamId.{canonical}
use eventstore.Es.Envelope.{Envelope, Uuid}
use eventstore.Es.Wire.{Wire, PbEnvelope}

abbrev pub hash_size : ℕ
hash_size = 32

-- `n` zero bytes.
abbrev zeros : ℕ → Text
zeros zero = []
zeros (suc n) = 0 ∷ zeros n

-- ZeroHash.
abbrev pub zero_hash : Text
zero_hash = zeros hash_size

-- The loop of equalHash: the accumulated difference of the bytes.
unfoldable pub byte_diff : Text → Text → ℕ → ℕ
byte_diff (a ∷ s) (b ∷ t) diff = byte_diff s t (bit_or diff (bit_xor a b))
byte_diff _ _ diff = diff

unfoldable pub equal_hash : Text → Text → Bool
unfolding byte_diff
equal_hash a b = if length a == length b then byte_diff a b 0 == 0 else false

module _ (w : Wire) where
  -- The fields that are hashed: not the recorded time, the global position and the hashes.
  unfoldable pub pb_envelope : Envelope → PbEnvelope
  pb_envelope e = record {
    event_id = w.uuid_string e.event_id;
    tenant_id = e.tenant_id;
    stream_id = canonical e.stream_id;
    version = e.version;
    type_url = e.type_url;
    schema_version = e.schema_version;
    occurred_at = e.occurred_at;
    correlation_id = w.uuid_string e.correlation_id;
    causation_id = w.uuid_string e.causation_id;
    command_id = w.uuid_string e.command_id;
    actor = e.actor;
    payload = e.payload;
    key_refs = e.key_refs;
  }

  unfoldable pub canonical_envelope_bytes : Envelope → Result Text
  unfolding pb_envelope
  canonical_envelope_bytes e = w.marshal (pb_envelope e)

  -- The envelope is never nil: every caller passes the address of one.
  unfoldable pub compute_chain_hash : Text → Envelope → Result Text
  compute_chain_hash prev e =
      if length prev == hash_size
      then (do bytes ← canonical_envelope_bytes e; ok (w.sha256 (prev ++ bytes)))
      else err plain

  -- The loop of VerifyStreamChain from the hash `prev` on.
  unfoldable pub verify_from : Text → List Envelope → Result (Unit {0})
  verify_from prev [] = ok tt
  verify_from prev (e ∷ es) = do
    got ← compute_chain_hash prev e
    let rest = verify_from e.hash es
    if equal_hash got e.hash then rest else err (chain_broken e.version)

  -- VerifyStreamChain, over what the store's ReadStream returned.
  unfoldable pub verify_stream_chain : Result (List Envelope) → Result (Unit {0})
  verify_stream_chain read = do envs ← read; verify_from zero_hash envs

-- RebuildResult.
pub record RebuildResult : Type 0 where
  pub backfilled_count : ℕ
  pub verified_count : ℕ

-- One call of BackfillEventHash: the event, its hash and its predecessor's hash.
pub record Backfill : Type 0 where
  pub tenant_id : Text
  pub event_id : Uuid
  pub hash : Text
  pub prev_hash : Text

-- What a rebuild leaves behind: its result, its error if it met one, and the writes that it made.
pub record Rebuilt (S : Type 0) : Type 0 where
  pub result : RebuildResult
  pub error : Result (Unit {0})
  pub store : S

module _ {S : Type 0} (w : Wire) (backfill : Backfill → S → Result S) where
  -- The loop of RebuildStreamChain. Without a transaction around it, what was written before an
  -- error stays written.
  unfoldable pub rebuild_from : Text → List Envelope → RebuildResult → S → Rebuilt S
  rebuild_from prev [] res s = record { result = res; error = ok tt; store = s }
  rebuild_from prev (e ∷ es) res s = elim (compute_chain_hash w prev e) [
    | err x ↦ record { result = res; error = err x; store = s }
    | ok expected ↦ elim e.hash [
      | [] ↦
          elim (backfill
            (record {
              tenant_id = e.tenant_id;
              event_id = e.event_id;
              hash = expected;
              prev_hash = prev;
            })
            s) [
              | err x ↦ record { result = res; error = err x; store = s }
              | ok s' ↦
                  rebuild_from expected es
                    (record res { backfilled_count = res.backfilled_count + 1 }) s'
            ]
      | _ ∷ _ ↦ elim (equal_hash expected e.hash) [
        | false ↦ record { result = res; error = err (chain_broken e.version); store = s }
        | true ↦ rebuild_from expected es (record res { verified_count = res.verified_count + 1 }) s
      ]
    ]
  ]

  -- RebuildStreamChain, over what the store's ReadStream returned.
  unfoldable pub rebuild_stream_chain : Result (List Envelope) → S → Rebuilt S
  rebuild_stream_chain (err x) s = record {
    result = record { backfilled_count = 0; verified_count = 0 };
    error = err x;
    store = s;
  }
  rebuild_stream_chain (ok envs) s =
      rebuild_from zero_hash envs (record { backfilled_count = 0; verified_count = 0 }) s
