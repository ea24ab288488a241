-- ===== src/Sqlite/Outbox.antt =====
-- adapters/storage/sqlite/outbox.go and outbox_admin.go, with the queries of internal/db/
-- outbox.sql.go. The text that SQLite's strftime gives for the time of an UPDATE is an argument.
use eventstore.Base.{
  ℕ, ◌+◌, ◌-◌, ◌^◌, Bool, true, false, ◌&&◌, not, Option, none, some, List, [], ◌∷◌, ◌++◌, Text,
  text_eq, ok, ◌>>=◌, ltb, leb, ◌==◌, if◌then◌else◌, take, where_rows, map,
}
use eventstore.Es.Error.{Error, Result}
use eventstore.Es.StreamId.{parse_canonical}
use eventstore.Es.Envelope.{Envelope, Time}
use eventstore.Es.Wire.{Wire}
use eventstore.Outbox.Drain.{OutboxRow, OutboxStore, StreamRef}
use eventstore.Sqlite.Tables.{Db, EventRow, OutboxEntry, same_entry}
use eventstore.Sqlite.Read.{decode_actor_column}

pub record Joined : Type 0 where
  pub entry : OutboxEntry
  pub event : EventRow

-- `a <= b` on texts, byte by byte.
unfoldable pub text_leb : Text → Text → Bool
text_leb [] t = true
text_leb (a ∷ s) [] = false
text_leb (a ∷ s) (b ∷ t) =
    let rest = text_leb s t in if ltb a b then true else (if a == b then rest else false)

abbrev pub text_ltb : Text → Text → Bool
text_ltb s t = text_leb s t && not (text_eq s t)

abbrev pub is_null : Option Text → Bool
is_null none = true
is_null (some t) = false

abbrev pub same_join : OutboxEntry → EventRow → Bool
same_join o e = text_eq e.tenant_id o.tenant_id && text_eq e.event_id o.event_id

abbrev pub joined : OutboxEntry → EventRow → Joined
joined o e = record { entry = o; event = e }

-- outbox o JOIN events e.
unfoldable pub join_events : List OutboxEntry → List EventRow → List Joined
join_events [] es = []
join_events (o ∷ os) es = map (joined o) (where_rows (same_join o) es) ++ join_events os es

-- Unpublished and not in the DLQ.
abbrev pub is_live : ℕ → Joined → Bool
is_live max_attempts j = is_null j.entry.published_at && ltb j.entry.attempts max_attempts

abbrev pub same_stream : EventRow → Joined → Bool
same_stream e j = text_eq j.event.tenant_id e.tenant_id && text_eq j.event.stream_id e.stream_id

abbrev pub lesser : ℕ → Option ℕ → Option ℕ
lesser v none = some v
lesser v (some u) = if ltb u v then some u else some v

unfoldable pub least_version : List Joined → Option ℕ
least_version [] = none
least_version (j ∷ js) = lesser j.event.version (least_version js)

-- The row of head_versions for the stream of `e`.
unfoldable pub head_version : ℕ → EventRow → List Joined → Option ℕ
unfolding least_version
head_version max_attempts e js =
    least_version (where_rows (λ j. same_stream e j && is_live max_attempts j) js)

abbrev pub is_version : ℕ → Option ℕ → Bool
is_version v none = false
is_version v (some h) = h == v

abbrev pub is_due : Text → Option Text → Bool
is_due now none = true
is_due now (some t) = text_leb t now

-- ORDER BY global_position.
unfoldable pub insert_joined : Joined → List Joined → List Joined
insert_joined j [] = j ∷ []
insert_joined j (x ∷ xs) =
    let rest = insert_joined j xs in
    if ltb x.entry.global_position j.entry.global_position then x ∷ rest else j ∷ x ∷ xs

unfoldable pub order_joined : List Joined → List Joined
unfolding insert_joined
order_joined [] = []
order_joined (j ∷ js) = insert_joined j (order_joined js)

abbrev pub is_pending : Text → ℕ → List Joined → Joined → Bool
is_pending now max_attempts js j =
    is_version j.event.version (head_version max_attempts j.event js)
    && (is_due now j.entry.next_attempt_at && is_live max_attempts j)

-- PendingOutboxWithEnvelope.
unfoldable pub pending_outbox_with_envelope : Text → ℕ → ℕ → Db → List Joined
unfolding head_version order_joined join_events
pending_outbox_with_envelope now max_attempts limit db =
    let js = join_events db.outbox db.events in
    take limit (order_joined (where_rows (is_pending now max_attempts js) js))

-- safeMaxAttempts.
unfoldable pub safe_max_attempts : ℕ → ℕ
safe_max_attempts n = if n == 0 then 2 ^ 31 - 1 else n

module _ (w : Wire) where
  -- rowToEnvelopeOutbox.
  unfoldable pub row_to_envelope_outbox : Joined → Result Envelope
  unfolding decode_actor_column
  row_to_envelope_outbox j = do
    sid ← parse_canonical j.entry.tenant_id j.event.stream_id
    actor ← decode_actor_column w j.event.actor
    occurred ← w.parse_time j.event.occurred_at
    recorded ← w.parse_time j.event.recorded_at
    ok (record {
      event_id = j.entry.event_id;
      tenant_id = j.entry.tenant_id;
      stream_id = sid;
      version = j.event.version;
      global_position = j.entry.global_position;
      type_url = j.event.type_url;
      schema_version = j.event.schema_version;
      occurred_at = occurred;
      recorded_at = recorded;
      correlation_id = j.event.correlation_id;
      causation_id = j.event.causation_id;
      command_id = j.event.command_id;
      actor = actor;
      payload = j.event.payload;
      payload_json = [];
      key_refs = j.event.key_refs;
      hash = j.event.hash;
      prev_hash = j.event.prev_hash;
    })

  unfoldable pub outbox_rows : Text → List Joined → Result (List OutboxRow)
  unfolding row_to_envelope_outbox
  outbox_rows tenant [] = ok []
  outbox_rows tenant (j ∷ js) =
      if not (text_eq tenant []) && not (text_eq j.entry.tenant_id tenant)
      then outbox_rows tenant js
      else do
        env ← row_to_envelope_outbox j
        rows ← outbox_rows tenant js
        ok (record { envelope = env; attempts = j.entry.attempts } ∷ rows)

  -- PendingOutbox.
  unfoldable pub pending_outbox : Time → Text → ℕ → ℕ → Db → Result (List OutboxRow)
  unfolding pending_outbox_with_envelope outbox_rows
  pending_outbox now tenant limit max_attempts db =
      outbox_rows tenant
        (pending_outbox_with_envelope (w.format_time now) (safe_max_attempts max_attempts) limit db)

unfoldable pub distinct_refs : List StreamRef → List StreamRef
distinct_refs [] = []
distinct_refs (r ∷ rs) =
    let rest = distinct_refs rs in
    r
    ∷ where_rows (λ s. not (text_eq s.tenant_id r.tenant_id && text_eq s.stream_id r.stream_id))
        rest

abbrev pub in_dlq : ℕ → OutboxEntry → Bool
in_dlq max_attempts o = is_null o.published_at && leb max_attempts o.attempts

-- QuarantinedStreams, with the query QuarantinedStreamsAllTenants for the empty tenant.
unfoldable pub quarantined_streams : Text → ℕ → Db → List StreamRef
unfolding join_events distinct_refs safe_max_attempts
quarantined_streams tenant max_attempts db = distinct_refs (
    map (λ j. record { tenant_id = j.entry.tenant_id; stream_id = j.event.stream_id })
      (where_rows
        (λ j.
          in_dlq (safe_max_attempts max_attempts) j.entry
          && (if text_eq tenant [] then true else text_eq j.entry.tenant_id tenant))
        (join_events db.outbox db.events)))

-- UPDATE outbox SET … WHERE ….
unfoldable pub update_outbox : (OutboxEntry → Bool) → (OutboxEntry → OutboxEntry) → Db → Db
update_outbox p f db = record db { outbox = map (λ o. if p o then f o else o) db.outbox }

-- MarkOutboxPublished.
unfoldable pub mark_outbox_published : Text → Text → ℕ → Db → Db
unfolding update_outbox
mark_outbox_published sql_now t gp db =
    update_outbox (same_entry t gp) (λ o. record o { published_at = some sql_now }) db

-- MarkOutboxFailed, for the error's text and the formatted time of the next attempt.
unfoldable pub mark_outbox_failed : Text → ℕ → Text → Text → Db → Db
unfolding update_outbox
mark_outbox_failed t gp message next db =
    update_outbox (same_entry t gp)
      (λ o. record o {
        attempts = o.attempts + 1;
        last_error = some (take 2048 message);
        next_attempt_at = some next;
      })
      db

abbrev pub published_before : Text → Option Text → Bool
published_before cutoff none = false
published_before cutoff (some t) = text_ltb t cutoff

-- CleanupPublishedOutbox, which does not count the rows.
unfoldable pub cleanup_published_outbox : Text → Text → Db → Db
cleanup_published_outbox tenant cutoff db = record db {
  outbox =
      where_rows (λ o. not (text_eq o.tenant_id tenant && published_before cutoff o.published_at))
        db.outbox;
}

-- The adapter as the drain's store; `describe` is the method Error. It is no es.DrainLocker.
abbrev pub sqlite_outbox : Wire → (Error → Text) → Text → OutboxStore Db
sqlite_outbox w describe sql_now = record {
  pending_outbox = pending_outbox w;
  quarantined_streams = λ tenant max_attempts db. ok (quarantined_streams tenant max_attempts db);
  mark_outbox_published = λ t gp db. ok (mark_outbox_published sql_now t gp db);
  mark_outbox_failed =
      λ t gp e next db. ok (mark_outbox_failed t gp (describe e) (w.format_time next) db);
  cleanup_published_outbox =
      λ t cutoff db. ok (0, cleanup_published_outbox t (w.format_time cutoff) db);
  locker = none;
}
