-- ===== src/Sqlite/Append/Sound.antt =====
-- An append (adapters/storage/sqlite/append.go) keeps the table of events well formed.
use eventstore.Base.{
  ℕ, suc, ◌+◌, ◌≡◌, refl, sym, ap, ◌∙◌, List, [], ◌∷◌, ◌++◌, Text, ok, err, ◌>>=◌, bind-ok, ◌==◌,
  if◌then◌else◌, length, where_rows, where_rows-append, subst,
}
use eventstore.Es.Error.{plain}
use eventstore.Es.StreamId.{StreamId, validate, canonical}
use eventstore.Es.StreamId.RoundTrip.{parse_canonical-canonical}
use eventstore.Es.Envelope.{Envelope, EventToAppend, Time}
use eventstore.Es.Wire.{Wire, PbEnvelope, RoundTrips}
use eventstore.Es.Chain.{zero_hash, pb_envelope, canonical_envelope_bytes, compute_chain_hash}
use eventstore.Sqlite.Tables.{Db, EventRow, in_stream, insert_event, insert_outbox}
use eventstore.Sqlite.Append.{Loop, u64, mapped, wrapped, chain_env, event_row, append_event}
use eventstore.Sqlite.Append.Keeps.{Inserted, insert_event-Inserted, insert_outbox-events}
use eventstore.Sqlite.Read.{row_to_envelope, decode_actor_column}
use eventstore.Sqlite.Sound.{rows_of, last_hash, RowOk, IsSound}

module _ (w : Wire) where
  -- What one pass of the loop over the events has done.
  pub record Step (sid : StreamId) (version : ℕ) (recorded_at : Text) (ev : EventToAppend)
      (l l' : Loop) : Type 0 where
    pub actor : Text
    pub encoded : w.encode_actor ev.actor ≡ ok actor
    pub hashed : compute_chain_hash w l.prev_hash (chain_env sid version ev) ≡ ok l'.prev_hash
    pub position : ℕ
    pub mid : Db
    pub inserted :
        Inserted
          (event_row w sid version ev actor recorded_at l'.prev_hash l.prev_hash)
          l.db
          position
          mid
    pub events : l'.db.events ≡ mid.events
    pub queued : wrapped (insert_outbox sid.tenant position ev.event_id mid) ≡ ok l'.db

  pub append_event-Step :
      (sid : StreamId) (expected : ℕ) (recorded_at : Text) (i : ℕ) (ev : EventToAppend)
      (l l' : Loop)
      → append_event w sid expected recorded_at i ev l ≡ ok l'
      → Step sid (u64 (expected + i + 1)) recorded_at ev l l'
  unfolding append_event
  append_event-Step sid expected recorded_at i ev l l' h =
      let version = u64 (expected + i + 1) in
      let (actor, encoded, h₁) = bind-ok (w.encode_actor ev.actor) _ h in
      let (hash, hashed, h₂) =
        bind-ok (compute_chain_hash w l.prev_hash (chain_env sid version ev)) _ h₁ in
      let (done, ins, h₃) =
        bind-ok
          (mapped
            (insert_event (event_row w sid version ev actor recorded_at hash l.prev_hash) l.db))
          _ h₂ in
      let (db, out, h₄) =
        bind-ok (wrapped (insert_outbox sid.tenant done.0 ev.event_id done.1)) _ h₃ in
      let same_prev : hash ≡ l'.prev_hash = cc in
      let same_db : db ≡ l'.db = cc in
      record {
        actor = actor;
        encoded = encoded;
        hashed = hashed ∙ ap ok same_prev;
        position = done.0;
        mid = done.1;
        inserted =
            subst
              (λ h.
                Inserted (event_row w sid version ev actor recorded_at h l.prev_hash) l.db done.0
                  done.1)
              same_prev (insert_event-Inserted _ l.db done.0 done.1 ins);
        events =
            ap (λ (d : Db). d.events) (sym same_db)
            ∙ (insert_outbox-events sid.tenant done.0 ev.event_id done.1 db out).0;
        queued = out ∙ ap ok same_db;
      }

  -- The envelope that a new row is read as.
  abbrev pub new_env : StreamId → ℕ → EventToAppend → Time → ℕ → Text → Text → Envelope
  new_env sid version ev now gp hash prev = record (chain_env sid version ev) {
    global_position = gp;
    recorded_at = now;
    payload_json = ev.payload_json;
    hash = hash;
    prev_hash = prev;
  }

  same_pb :
      (sid : StreamId) (version : ℕ) (ev : EventToAppend) (now gp : ℕ) (hash prev : Text)
      → pb_envelope w (new_env sid version ev now gp hash prev)
        ≡ pb_envelope w (chain_env sid version ev)
  unfolding pb_envelope chain_env
  same_pb sid version ev now gp hash prev = refl

  same_compute :
      (sid : StreamId) (version : ℕ) (ev : EventToAppend) (now gp : ℕ) (hash prev p : Text)
      → compute_chain_hash w p (new_env sid version ev now gp hash prev)
        ≡ compute_chain_hash w p (chain_env sid version ev)
  unfolding compute_chain_hash canonical_envelope_bytes
  same_compute sid version ev now gp hash prev p =
      ap
        (λ (pb : PbEnvelope).
          if length p == 32
          then (do bytes ← w.marshal pb; ok (w.sha256 (p ++ bytes)))
          else err plain)
        (same_pb sid version ev now gp hash prev)

  module _ (rt : RoundTrips w) where
    actor_column :
        (t : Text) (ev : EventToAppend)
        → w.encode_actor ev.actor ≡ ok t
        → decode_actor_column w t ≡ ok ev.actor
    unfolding decode_actor_column
    actor_column [] ev h = absurd (rt.actor_text ev.actor [] h refl)
    actor_column (b ∷ t) ev h = rt.actor_back ev.actor (b ∷ t) h

    -- A new row is read back as the event that was appended.
    pub row_to_envelope-event_row :
        (sid : StreamId) (version : ℕ) (ev : EventToAppend) (actor : Text) (now gp : ℕ)
        (hash prev : Text)
        → validate sid ≡ ok tt
        → w.encode_actor ev.actor ≡ ok actor
        → row_to_envelope w
            (record (event_row w sid version ev actor (w.format_time now) hash prev) {
              global_position = gp;
            })
          ≡ ok (new_env sid version ev now gp hash prev)
    unfolding row_to_envelope event_row chain_env
    row_to_envelope-event_row sid version ev actor now gp hash prev valid encoded = rw (
      parse_canonical-canonical sid valid,
      actor_column actor ev encoded,
      rt.time_back ev.occurred_at,
      rt.time_back now,
    )

    -- The state of the loop after `n` events of its stream.
    pub record LoopOk (sid : StreamId) (n : ℕ) (l : Loop) : Type 0 where
      pub sound : IsSound w l.db
      pub prev : l.prev_hash ≡ last_hash zero_hash (rows_of sid.tenant (canonical sid) l.db)
      pub count : length (rows_of sid.tenant (canonical sid) l.db) ≡ n

    pub new_RowOk :
        (sid : StreamId) (n : ℕ) (ev : EventToAppend) (now : Time) (l l' : Loop)
        → validate sid ≡ ok tt
        → (st : Step sid (suc n) (w.format_time now) ev l l')
        → RowOk w l.prev_hash n
            (record (event_row w sid
              (suc n)
              ev
              st.actor
              (w.format_time now)
              l'.prev_hash
              l.prev_hash) { global_position = l.db.sequence + 1 })
    unfolding event_row
    new_RowOk sid n ev now l l' valid st = record {
      env = new_env sid (suc n) ev now (l.db.sequence + 1) l'.prev_hash l.prev_hash;
      reads =
          row_to_envelope-event_row sid (suc n) ev st.actor now (l.db.sequence + 1) l'.prev_hash
            l.prev_hash valid st.encoded;
      same_hash = refl;
      in_turn = refl;
      linked =
          same_compute sid (suc n) ev now (l.db.sequence + 1) l'.prev_hash l.prev_hash l.prev_hash
          ∙ st.hashed;
    }

    -- The rows of a stream after one more row in the table.
    pub rows_of-snoc :
        (t s : Text) (a b : Db) (row : EventRow)
        → b.events ≡ a.events ++ row ∷ []
        → rows_of t s b ≡ rows_of t s a ++ (if in_stream t s row then row ∷ [] else [])
    unfolding where_rows
    rows_of-snoc t s a b row e = rw (e, where_rows-append (in_stream t s) a.events (row ∷ []))

    pub last_hash-snoc :
        (p : Text) (rs : List EventRow) (r : EventRow) → last_hash p (rs ++ r ∷ []) ≡ r.hash
    last_hash-snoc p [] r = refl
    last_hash-snoc p (x ∷ rs) r = last_hash-snoc x.hash rs r
