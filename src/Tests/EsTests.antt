-- ===== src/Tests/EsTests.antt =====
-- es/: stream ids and hash chains.
use eventstore.Base.{◌≡◌, refl, ◌⊎◌, Text, text, ok, err, [], ◌∷◌, map, true, ◌↔◌}
use eventstore.Es.Error.{invalid_stream_id}
use eventstore.Es.StreamId.{StreamId, validate, canonical, parse_canonical}
use eventstore.Es.StreamId.RoundTrip.{parse_canonical-canonical, canonical-parse_canonical}
use eventstore.Es.Envelope.{Envelope}
use eventstore.Es.Chain.{
  zero_hash, equal_hash, verify_from, canonical_envelope_bytes, compute_chain_hash,
}
use eventstore.Es.Chain.Digest.{equal_hash_iff}
use eventstore.Es.Chain.Tamper.{tamper_evidence, Collision}
use eventstore.Tests.ToyWire.{toy, service}

abbrev pub user_42 : StreamId
user_42 = record { tenant = text "acme"; typ = text "user"; id = text "u-42" }

pub user_42-valid : validate user_42 ≡ ok tt
unfolding validate
user_42-valid = refl

parse_canonical-canonical_example : parse_canonical (text "acme") (canonical user_42) ≡ ok user_42
parse_canonical-canonical_example = parse_canonical-canonical user_42 user_42-valid

parse_user : parse_canonical (text "acme") (text "user:u-42") ≡ ok user_42
unfolding parse_canonical
parse_user = refl

no_type : parse_canonical (text "acme") (text ":u-42") ≡ err invalid_stream_id
unfolding parse_canonical
no_type = refl

canonical-parse_canonical_example :
    (user_42.tenant ≡ text "acme")
    × (canonical user_42 ≡ text "user:u-42")
    × (validate user_42 ≡ ok tt)
canonical-parse_canonical_example =
    canonical-parse_canonical (text "acme") (text "user:u-42") user_42 parse_user

equal_hash_iff_example :
    (equal_hash (1 ∷ 2 ∷ []) (1 ∷ 3 ∷ []) ≡ true) ↔ (◌≡◌ {A = Text} (1 ∷ 2 ∷ []) (1 ∷ 3 ∷ []))
equal_hash_iff_example = equal_hash_iff (1 ∷ 2 ∷ []) (1 ∷ 3 ∷ [])

abbrev pub first : Envelope
first = record {
  event_id = 7 ∷ [];
  tenant_id = text "acme";
  stream_id = user_42;
  version = 1;
  global_position = 9;
  type_url = text "t";
  schema_version = 1;
  occurred_at = 5;
  recorded_at = 6;
  correlation_id = [];
  causation_id = [];
  command_id = [];
  actor = service (text "svc");
  payload = text "hi";
  payload_json = [];
  key_refs = [];
  hash = zero_hash;
  prev_hash = zero_hash;
}

first_chain : verify_from toy zero_hash (first ∷ []) ≡ ok tt
unfolding verify_from compute_chain_hash canonical_envelope_bytes equal_hash
first_chain = refl

tamper_evidence_example :
    Collision toy
    ⊎ ((zero_hash ≡ zero_hash)
        × (map (canonical_envelope_bytes toy) (first ∷ [])
            ≡ map (canonical_envelope_bytes toy) (first ∷ [])))
tamper_evidence_example =
    tamper_evidence toy zero_hash zero_hash (first ∷ []) (first ∷ []) first_chain first_chain refl
      refl
