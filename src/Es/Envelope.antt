-- ===== src/Es/Envelope.antt =====
-- es/actor.go, es/envelope.go and es/command.go: the values that the store carries. A uuid.UUID is
-- its 16 bytes. A time.Time is a count of nanoseconds from the zero time of Go, year 1. A nil slice
-- or pointer is the empty one, but for `new_state`, where the code tells them apart.
use eventstore.Base.{ℕ, List, Option, Text, Bool}
use eventstore.Es.StreamId.{StreamId}

abbrev pub Uuid : Type 0
Uuid = Text

abbrev pub Time : Type 0
Time = ℕ

pub data ActorKind : Type 0 where
  actor_unspecified actor_user actor_system actor_service actor_integration : ActorKind

pub record Actor : Type 0 where
  pub kind : ActorKind
  pub principal : Text
  pub on_behalf_of : Text
  pub api_key_id : Text
  pub attributes : List (Text × Text)

pub record Envelope : Type 0 where
  pub event_id : Uuid
  pub tenant_id : Text
  pub stream_id : StreamId
  pub version : ℕ
  pub global_position : ℕ
  pub type_url : Text
  pub schema_version : ℕ
  pub occurred_at : Time
  pub recorded_at : Time
  pub correlation_id : Uuid
  pub causation_id : Uuid
  pub command_id : Uuid
  pub actor : Actor
  pub payload : Text
  pub payload_json : Text
  pub key_refs : Text
  pub hash : Text
  pub prev_hash : Text

pub data ConstraintOp : Type 0 where
  claim : (scope value : Text) → ConstraintOp
  release : (scope value : Text) → ConstraintOp
  -- a kind other than ClaimConstraint and ReleaseConstraint
  unknown_op : (kind : ℕ) → ConstraintOp

pub record EventToAppend : Type 0 where
  pub event_id : Uuid
  pub type_url : Text
  pub schema_version : ℕ
  pub occurred_at : Time
  pub correlation_id : Uuid
  pub causation_id : Uuid
  pub command_id : Uuid
  pub actor : Actor
  pub payload : Text
  pub payload_json : Text
  pub key_refs : Text

pub record AppendParams : Type 0 where
  pub stream_id : StreamId
  pub expected_version : ℕ
  pub events : List EventToAppend
  pub constraints : List ConstraintOp
  pub new_state : Option Text
  pub state_type_url : Text
  pub state_schema_version : ℕ
  pub terminal : Bool

pub record AppendResult : Type 0 where
  pub start_version : ℕ
  pub end_version : ℕ
  pub start_global_position : ℕ
  pub end_global_position : ℕ
  pub recorded_at : Time

-- The row of es/state_cache.go.
pub record StateCacheRow : Type 0 where
  pub tenant_id : Text
  pub stream_id : Text
  pub type_url : Text
  pub state : Text
  pub version : ℕ
  pub terminal : Bool
  pub state_schema_version : ℕ
  pub updated_at : Time
