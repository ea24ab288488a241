-- ===== src/Sqlite/EventLog.antt =====
-- What es.Store promises of a log, stated without tables, rows or hashes: for each stream the
-- events that were appended to it, in order. The sqlite adapter is an implementation of it.
pub mod Contents
pub mod Refines
use eventstore.Base.{
  ℕ, suc, ◌+◌, ◌≡◌, Bool, ◌&&◌, List, [], ◌∷◌, ◌++◌, map, Text, text_eq, ok, if◌then◌else◌,
}
use eventstore.Es.StreamId.{StreamId, validate}
use eventstore.Es.Envelope.{Envelope, EventToAppend, AppendParams, Time}
use eventstore.Es.Wire.{Wire}
use eventstore.Sqlite.Tables.{Db}
use eventstore.Sqlite.Read.{read_stream}

-- An appended event with its version and the time of its append.
pub record Recorded : Type 0 where
  pub version : ℕ
  pub event : EventToAppend
  pub recorded_at : Time

abbrev pub Log : Type 0
Log = StreamId → List Recorded

abbrev pub empty_log : Log
empty_log sid = []

unfoldable pub same_id : StreamId → StreamId → Bool
same_id a b = text_eq a.tenant b.tenant && (text_eq a.typ b.typ && text_eq a.id b.id)

-- Events numbered from `version` + 1 on.
unfoldable pub recorded : Time → ℕ → List EventToAppend → List Recorded
recorded now version [] = []
recorded now version (ev ∷ evs) =
    record { version = suc version; event = ev; recorded_at = now } ∷ recorded now (suc version) evs

-- An append extends one stream and leaves the others alone.
unfoldable pub log_append : Time → AppendParams → Log → Log
log_append now p log sid =
    log sid ++ (if same_id p.stream_id sid then recorded now p.expected_version p.events else [])

-- What a reader sees of an envelope but for its position and its hashes.
abbrev pub view : Envelope → Recorded
view e = record {
  version = e.version;
  recorded_at = e.recorded_at;
  event = record {
    event_id = e.event_id;
    type_url = e.type_url;
    schema_version = e.schema_version;
    occurred_at = e.occurred_at;
    correlation_id = e.correlation_id;
    causation_id = e.causation_id;
    command_id = e.command_id;
    actor = e.actor;
    payload = e.payload;
    payload_json = e.payload_json;
    key_refs = e.key_refs;
  };
}

-- Reading any valid stream id from version 0 gives what the log holds for it.
abbrev pub Represents : Wire → Db → Log → Type 0
Represents w db log =
    (sid : StreamId)
    → validate sid ≡ ok tt
    → (es : List Envelope) × (read_stream w sid 0 db ≡ ok es) × (map view es ≡ log sid)
