-- ===== src/Es/Wire.antt =====
-- What the framework takes from packages outside the repository: the text of a UUID, deterministic
-- protobuf marshalling, SHA-256, and the functions jsonb and json of SQLite. The texts in which the
-- sqlite adapter keeps actors and times are written and read by adapters/storage/sqlite/convert.go
-- with protojson and the time package; they are taken as parameters here, with its functions.
use eventstore.Base.{ℕ, ◌≡◌, ◌≢◌, [], Text, ok, length}
use eventstore.Es.Error.{Result}
use eventstore.Es.Envelope.{Uuid, Time, Actor}

-- The message eventstore.envelope.v1.Envelope as es/chain.go fills it in.
pub record PbEnvelope : Type 0 where
  pub event_id : Text
  pub tenant_id : Text
  pub stream_id : Text
  pub version : ℕ
  pub type_url : Text
  pub schema_version : ℕ
  pub occurred_at : Time
  pub correlation_id : Text
  pub causation_id : Text
  pub command_id : Text
  pub actor : Actor
  pub payload : Text
  pub key_refs : Text

-- `jsonb` is the binary form of a text, and fails where the text is not JSON; `json` is the text of a
-- binary form.
pub record Wire : Type 0 where
  pub uuid_string : Uuid → Text
  pub marshal : PbEnvelope → Result Text
  pub sha256 : Text → Text
  pub encode_actor : Actor → Result Text
  pub decode_actor : Text → Result Actor
  pub format_time : Time → Text
  pub parse_time : Text → Result Time
  pub jsonb : Text → Result Text
  pub json : Text → Result Text

-- A SHA-256 digest has 32 bytes.
pub record HasDigests (w : Wire) : Type 0 where
  pub digest_length : (b : Text) → length (w.sha256 b) ≡ 32

-- Actors and times are read back as they were written, and no actor is written as an empty text.
-- The layout of the times has four digits for the year, so times are those of the years up to 9999.
pub record RoundTrips (w : Wire) : Type 0 where
  pub actor_back : (a : Actor) (t : Text) → w.encode_actor a ≡ ok t → w.decode_actor t ≡ ok a
  pub actor_text : (a : Actor) (t : Text) → w.encode_actor a ≡ ok t → t ≢ []
  pub time_back : (t : Time) → w.parse_time (w.format_time t) ≡ ok t
