-- ===== src/Sqlite/Read.antt =====
-- adapters/storage/sqlite/read.go, and rowToEnvelope of convert.go.
use eventstore.Base.{
  ℕ, Option, none, some, List, [], ◌∷◌, Text, ok, err, ◌>>=◌, ◌>>◌, where_rows, text_eq, ◌&&◌,
  if◌then◌else◌,
}
use eventstore.Es.Error.{Result, event_not_found}
use eventstore.Es.StreamId.{StreamId, validate, canonical, parse_canonical}
use eventstore.Es.Envelope.{Envelope, Actor, actor_unspecified, Uuid}
use eventstore.Es.Wire.{Wire}
use eventstore.Sqlite.Tables.{
  Db, EventRow, in_stream, read_stream_from_version, max_version, read_all_from_position,
  read_all_from_position_tenant,
}

abbrev no_actor : Actor
no_actor = record {
  kind = actor_unspecified;
  principal = [];
  on_behalf_of = [];
  api_key_id = [];
  attributes = [];
}

module _ (w : Wire) where
  -- decodeActor.
  unfoldable pub decode_actor_column : Text → Result Actor
  decode_actor_column [] = ok no_actor
  decode_actor_column (b ∷ s) = w.decode_actor (b ∷ s)

  unfoldable pub row_to_envelope : EventRow → Result Envelope
  unfolding decode_actor_column
  row_to_envelope r = do
    sid ← parse_canonical r.tenant_id r.stream_id
    actor ← decode_actor_column r.actor
    occurred ← w.parse_time r.occurred_at
    recorded ← w.parse_time r.recorded_at
    ok (record {
      event_id = r.event_id;
      tenant_id = r.tenant_id;
      stream_id = sid;
      version = r.version;
      global_position = r.global_position;
      type_url = r.type_url;
      schema_version = r.schema_version;
      occurred_at = occurred;
      recorded_at = recorded;
      correlation_id = r.correlation_id;
      causation_id = r.causation_id;
      command_id = r.command_id;
      actor = actor;
      payload = r.payload;
      payload_json = r.payload_json;
      key_refs = r.key_refs;
      hash = r.hash;
      prev_hash = r.prev_hash;
    })

  unfoldable pub collect : List EventRow → Result (List Envelope)
  collect [] = ok []
  collect (r ∷ rs) = do e ← row_to_envelope r; es ← collect rs; ok (e ∷ es)

  -- ReadStream.
  unfoldable pub read_stream : StreamId → ℕ → Db → Result (List Envelope)
  unfolding collect
  read_stream sid from db = do
    validate sid
    collect (read_stream_from_version sid.tenant (canonical sid) from db)

  -- ReadAll.
  unfoldable pub read_all : ℕ → ℕ → Db → Result (List Envelope)
  unfolding collect
  read_all from limit db = collect (read_all_from_position from limit db)

  -- ReadAllForTenant.
  unfoldable pub read_all_for_tenant : Text → ℕ → ℕ → Db → Result (List Envelope)
  unfolding collect
  read_all_for_tenant t from limit db = collect (read_all_from_position_tenant t from limit db)

-- CurrentStreamVersion.
unfoldable pub current_stream_version : StreamId → Db → Result ℕ
current_stream_version sid db = do
  validate sid
  ok (max_version (where_rows (in_stream sid.tenant (canonical sid)) db.events))

unfoldable pub find_event : Text → Uuid → List EventRow → Option EventRow
find_event t id [] = none
find_event t id (r ∷ rs) =
    if text_eq r.tenant_id t && text_eq r.event_id id then some r else find_event t id rs

-- GetEventByID; the query returns sql.ErrNoRows where no row fits.
unfoldable pub get_event_by_id : Wire → Text → Uuid → Db → Result Envelope
unfolding find_event
get_event_by_id w t id db = elim (find_event t id db.events) [
  | none ↦ err event_not_found
  | some r ↦ row_to_envelope w r
]
