-- ===== src/CmdWorkflow/Codec.antt =====
-- cmdworkflow/codec.go: what the bus journals, through gob, and the other library calls of the bus.
use eventstore.Base.{ℕ, Bool, List, [], ◌∷◌, map, Text, ok, ◌>>=◌}
use eventstore.Es.Error.{Error, Result}
use eventstore.Es.StreamId.{canonical}
use eventstore.Es.Envelope.{Envelope, ActorKind, AppendResult, Time, Uuid}
use eventstore.Aggregate.Runtime.{Codec}

-- wireAppendResult has the fields of es.AppendResult.
pub record WireAppendResult : Type 0 where
  pub start_version : ℕ
  pub end_version : ℕ
  pub start_global_position : ℕ
  pub end_global_position : ℕ
  pub recorded_at : Time

pub record WireEnvelope : Type 0 where
  pub event_id : Uuid
  pub tenant_id : Text
  pub stream_canon : Text
  pub stream_tenant : Text
  pub stream_type : Text
  pub stream_raw_id : Text
  pub version : ℕ
  pub global_position : ℕ
  pub type_url : Text
  pub schema_version : ℕ
  pub occurred_at : Time
  pub recorded_at : Time
  pub correlation_id : Uuid
  pub causation_id : Uuid
  pub command_id : Uuid
  pub actor_principal : Text
  pub actor_kind : ActorKind
  pub actor_on_behalf_of : Text
  pub actor_api_key_id : Text
  pub actor_attributes : List (Text × Text)
  pub payload : Text
  pub payload_json : Text
  pub key_refs : Text

-- UUID.String, uuid.NewSHA1, err.Error, errors.New, path.Match, and gob on the two wire types.
pub record Library : Type 0 where
  pub uuid_string : Uuid → Text
  pub new_sha1 : Uuid → Text → Uuid
  pub error_text : Error → Text
  pub new_error : Text → Error
  pub path_match : Text → Text → Bool
  pub gob_result : WireAppendResult → Text
  pub ungob_result : Text → Result WireAppendResult
  pub gob_envelopes : List WireEnvelope → Text
  pub ungob_envelopes : Text → Result (List WireEnvelope)

unfoldable pub result_to_wire : AppendResult → WireAppendResult
result_to_wire r = record {
  start_version = r.start_version;
  end_version = r.end_version;
  start_global_position = r.start_global_position;
  end_global_position = r.end_global_position;
  recorded_at = r.recorded_at;
}

unfoldable pub result_of_wire : WireAppendResult → AppendResult
result_of_wire r = record {
  start_version = r.start_version;
  end_version = r.end_version;
  start_global_position = r.start_global_position;
  end_global_position = r.end_global_position;
  recorded_at = r.recorded_at;
}

unfoldable pub to_wire : Envelope → WireEnvelope
to_wire env = record {
  event_id = env.event_id;
  tenant_id = env.tenant_id;
  stream_canon = canonical env.stream_id;
  stream_tenant = env.stream_id.tenant;
  stream_type = env.stream_id.typ;
  stream_raw_id = env.stream_id.id;
  version = env.version;
  global_position = env.global_position;
  type_url = env.type_url;
  schema_version = env.schema_version;
  occurred_at = env.occurred_at;
  recorded_at = env.recorded_at;
  correlation_id = env.correlation_id;
  causation_id = env.causation_id;
  command_id = env.command_id;
  actor_principal = env.actor.principal;
  actor_kind = env.actor.kind;
  actor_on_behalf_of = env.actor.on_behalf_of;
  actor_api_key_id = env.actor.api_key_id;
  actor_attributes = env.actor.attributes;
  payload = env.payload;
  payload_json = env.payload_json;
  key_refs = env.key_refs;
}

unfoldable pub of_wire : WireEnvelope → Envelope
of_wire w = record {
  event_id = w.event_id;
  tenant_id = w.tenant_id;
  stream_id = record { tenant = w.stream_tenant; typ = w.stream_type; id = w.stream_raw_id };
  version = w.version;
  global_position = w.global_position;
  type_url = w.type_url;
  schema_version = w.schema_version;
  occurred_at = w.occurred_at;
  recorded_at = w.recorded_at;
  correlation_id = w.correlation_id;
  causation_id = w.causation_id;
  command_id = w.command_id;
  actor = record {
    kind = w.actor_kind;
    principal = w.actor_principal;
    on_behalf_of = w.actor_on_behalf_of;
    api_key_id = w.actor_api_key_id;
    attributes = w.actor_attributes;
  };
  payload = w.payload;
  payload_json = w.payload_json;
  key_refs = w.key_refs;
  hash = [];
  prev_hash = [];
}

module _ (lib : Library) where
  unfoldable pub encode_append_result : AppendResult → Text
  unfolding result_to_wire
  encode_append_result r = lib.gob_result (result_to_wire r)

  unfoldable pub decode_append_result : Text → Result AppendResult
  unfolding result_of_wire
  decode_append_result b = do w ← lib.ungob_result b; ok (result_of_wire w)

  unfoldable pub encode_envelopes : List Envelope → Text
  unfolding to_wire
  encode_envelopes envs = lib.gob_envelopes (map to_wire envs)

  unfoldable pub decode_envelopes : Text → Result (List Envelope)
  unfolding of_wire
  decode_envelopes b = do ws ← lib.ungob_envelopes b; ok (map of_wire ws)

-- The method decodeEvents.
unfoldable pub decode_events : {E : Type 0} → Codec E → List Envelope → Result (List E)
decode_events codec [] = ok []
decode_events codec (env ∷ envs) = do
  evt ← codec.decode env.type_url env.schema_version env.payload
  evts ← decode_events codec envs
  ok (evt ∷ evts)
