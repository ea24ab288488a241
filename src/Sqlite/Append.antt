-- ===== src/Sqlite/Append.antt =====
-- adapters/storage/sqlite/append.go: the transaction that appends a batch of events. The current
-- time is an argument. Beginning and committing a transaction do not fail here; tracing and metrics
-- are left out.
pub mod Keeps
pub mod Sound
pub mod Preserve
pub mod Laws
pub mod Streams
pub mod Invariant
pub mod Mirror
pub mod Claims
use eventstore.Base.{
  ℕ, suc, ◌+◌, ◌%◌, ◌^◌, Bool, true, false, Option, none, some, List, [], ◌∷◌, Text, Outcome, ok,
  err, ◌>>=◌, ◌>>◌, ◌==◌, if◌then◌else◌, length,
}
use eventstore.Es.Error.{Error, Result, conflict, constraint_violated, plain}
use eventstore.Es.StreamId.{StreamId, validate, canonical}
use eventstore.Es.Envelope.{
  Envelope, EventToAppend, AppendParams, AppendResult, ConstraintOp, claim, release, unknown_op,
  Time,
}
use eventstore.Es.Wire.{Wire}
use eventstore.Es.Chain.{zero_hash, compute_chain_hash}
use eventstore.Sqlite.Tables.{
  Db, EventRow, StateRow, DbError, unique_failed, Table, events_table, unique_claims_table,
  outbox_table, insert_event, insert_outbox, claim_unique, release_unique, last_stream_hash,
  upsert_state_cache,
}

-- Arithmetic of uint64.
abbrev pub u64 : ℕ → ℕ
u64 n = n % 2 ^ 64

-- mapErr.
unfoldable pub map_err : DbError → Error
map_err (unique_failed unique_claims_table) = constraint_violated
map_err (unique_failed events_table) = conflict
map_err (unique_failed outbox_table) = plain

abbrev pub mapped {ℓ} : {A : Type ℓ} → Outcome DbError A → Result A
mapped (ok a) = ok a
mapped (err e) = err (map_err e)

-- An error that is wrapped without a sentinel.
abbrev pub wrapped {ℓ} : {A : Type ℓ} → Outcome DbError A → Result A
wrapped (ok a) = ok a
wrapped (err e) = err plain

-- One pass of the loop over p.Constraints.
unfoldable pub apply_op : StreamId → ConstraintOp → Db → Result Db
apply_op sid (claim scope value) db =
    mapped (claim_unique sid.tenant scope value (canonical sid) db)
apply_op sid (release scope value) db = ok (release_unique sid.tenant scope value db)
apply_op sid (unknown_op kind) db = err plain

unfoldable pub apply_ops : StreamId → List ConstraintOp → Db → Result Db
unfolding apply_op map_err
apply_ops sid [] db = ok db
apply_ops sid (op ∷ ops) db = do db' ← apply_op sid op db; apply_ops sid ops db'

-- The variables of the loop over p.Events: the transaction's tables, prevHash, startPos and endPos.
pub record Loop : Type 0 where
  pub db : Db
  pub prev_hash : Text
  pub start_pos : ℕ
  pub end_pos : ℕ

-- An empty previous hash stands for ZeroHash.
abbrev pub or_zero : Text → Text
or_zero [] = zero_hash
or_zero (b ∷ h) = b ∷ h

-- The envelope that is hashed.
unfoldable pub chain_env : StreamId → ℕ → EventToAppend → Envelope
chain_env sid version ev = record {
  event_id = ev.event_id;
  tenant_id = sid.tenant;
  stream_id = sid;
  version = version;
  global_position = 0;
  type_url = ev.type_url;
  schema_version = ev.schema_version;
  occurred_at = ev.occurred_at;
  recorded_at = 0;
  correlation_id = ev.correlation_id;
  causation_id = ev.causation_id;
  command_id = ev.command_id;
  actor = ev.actor;
  payload = ev.payload;
  payload_json = [];
  key_refs = ev.key_refs;
  hash = [];
  prev_hash = [];
}

-- The variables before the loop over p.Events, once the constraint operations are done.
abbrev pub first_pass : StreamId → Db → Loop
first_pass sid db = record {
  db = db;
  prev_hash = or_zero (last_stream_hash sid.tenant (canonical sid) db);
  start_pos = 0;
  end_pos = 0;
}

module _ (w : Wire) where
  unfoldable pub event_row : StreamId → ℕ → EventToAppend → Text → Text → Text → Text → EventRow
  event_row sid version ev actor recorded_at hash prev_hash = record {
    event_id = ev.event_id;
    tenant_id = sid.tenant;
    stream_id = canonical sid;
    version = version;
    global_position = 0;
    type_url = ev.type_url;
    schema_version = ev.schema_version;
    occurred_at = w.format_time ev.occurred_at;
    recorded_at = recorded_at;
    correlation_id = ev.correlation_id;
    causation_id = ev.causation_id;
    command_id = ev.command_id;
    actor = actor;
    actor_principal = ev.actor.principal;
    payload = ev.payload;
    payload_json = ev.payload_json;
    key_refs = ev.key_refs;
    hash = hash;
    prev_hash = prev_hash;
  }

  -- One pass of the loop over p.Events, for the event with index `i`.
  unfoldable pub append_event : StreamId → ℕ → Text → ℕ → EventToAppend → Loop → Result Loop
  append_event sid expected recorded_at i ev l = do
    actor ← w.encode_actor ev.actor
    let version = u64 (expected + i + 1)
    hash ← compute_chain_hash w l.prev_hash (chain_env sid version ev)
    inserted ←
        mapped (insert_event (event_row sid version ev actor recorded_at hash l.prev_hash) l.db)
    db ← wrapped (insert_outbox sid.tenant inserted.0 ev.event_id inserted.1)
    ok (record {
      db = db;
      prev_hash = hash;
      start_pos = if i == 0 then inserted.0 else l.start_pos;
      end_pos = inserted.0;
    })

  unfoldable pub append_events : StreamId → ℕ → Text → ℕ → List EventToAppend → Loop → Result Loop
  append_events sid expected recorded_at i [] l = ok l
  append_events sid expected recorded_at i (ev ∷ evs) l = do
    l' ← append_event sid expected recorded_at i ev l
    append_events sid expected recorded_at (suc i) evs l'

  -- The optional state_cache row, for the state's bytes.
  abbrev pub put_cached : AppendParams → Text → Db → Option Text → Result Db
  put_cached p updated_at db none = ok db
  put_cached p updated_at db (some bytes) =
      upsert_state_cache w.jsonb
        (record {
          tenant_id = p.stream_id.tenant;
          stream_id = canonical p.stream_id;
          type_url = p.state_type_url;
          state = bytes;
          version = p.expected_version + length p.events;
          terminal = p.terminal;
          state_schema_version = if p.state_schema_version == 0 then 1 else p.state_schema_version;
          updated_at = updated_at;
        })
        db

  unfoldable pub write_state : AppendParams → Text → Db → Result Db
  write_state p updated_at db = put_cached p updated_at db p.new_state

  -- The closure that runs in the transaction.
  unfoldable pub append_tx : Time → AppendParams → Db → Result (AppendResult × Db)
  append_tx now p db = do
    let sid = p.stream_id
    db' ← apply_ops sid p.constraints db
    let recorded_at = w.format_time now
    l ← append_events sid p.expected_version recorded_at 0 p.events (first_pass sid db')
    stored ← write_state p recorded_at l.db
    ok (
      record {
        start_version = u64 (p.expected_version + 1);
        end_version = u64 (p.expected_version + length p.events);
        start_global_position = l.start_pos;
        end_global_position = l.end_pos;
        recorded_at = now;
      },
      stored,
    )

abbrev pub finish_tx {ℓ} : {A : Type ℓ} → Db → Result (A × Db) → Result A × Db
finish_tx db (ok (a, db')) = (ok a, db')
finish_tx db (err e) = (err e, db)

-- withTx: a commit on success, else a rollback.
unfoldable pub with_tx {ℓ} : {A : Type ℓ} → (Db → Result (A × Db)) → Db → Result A × Db
with_tx body db = finish_tx db (body db)

-- Append, after the stream id is validated: an empty batch is refused.
unfoldable pub append_valid :
    Wire → Time → AppendParams → List EventToAppend → Db → Result AppendResult × Db
append_valid w now p [] db = (err plain, db)
append_valid w now p (_ ∷ _) db = with_tx (append_tx w now p) db

abbrev pub append_checked :
    Wire → Time → AppendParams → Result (Unit {0}) → Db → Result AppendResult × Db
append_checked w now p (err e) db = (err e, db)
append_checked w now p (ok _) db = append_valid w now p p.events db

-- The method Append.
unfoldable pub append : Wire → Time → AppendParams → Db → Result AppendResult × Db
unfolding append_valid with_tx
append w now p db = append_checked w now p (validate p.stream_id) db
