-- ===== src/Sqlite/Append/Mirror.antt =====
-- The outbox rows that adapters/storage/sqlite/append.go writes along with the events.
use eventstore.Base.{
  ℕ, ◌+◌, ◌≡◌, refl, sym, ap, ◌∙◌, false, true, Bool, if◌then◌else◌, List, [], ◌∷◌, ◌++◌, map, Text,
  ok, err, any_row, arith, none,
}
use eventstore.Es.StreamId.{StreamId}
use eventstore.Es.Envelope.{AppendParams, ConstraintOp, EventToAppend, Time, Uuid}
use eventstore.Es.Wire.{Wire}
use eventstore.Sqlite.Tables.{
  Db, EventRow, OutboxEntry, empty_db, insert_outbox, same_entry, unique_failed, outbox_table,
}
use eventstore.Sqlite.Append.{Loop, apply_op, append_event, append, event_row, write_state, wrapped}
use eventstore.Sqlite.Append.Keeps.{apply_op-SameLog, write_state-SameLog}
use eventstore.Sqlite.Append.Sound.{append_event-Step}
use eventstore.Sqlite.Append.Invariant.{StepsKeep, append-keep}

-- What names an event across the two tables.
abbrev pub event_key : EventRow → Text × ℕ × Text
event_key r = (r.tenant_id, r.global_position, r.event_id)

abbrev pub entry_key : OutboxEntry → Text × ℕ × Text
entry_key o = (o.tenant_id, o.global_position, o.event_id)

-- The outbox holds one row for each event, in the same order.
abbrev pub IsMirrored : Db → Type 0
IsMirrored db = map entry_key db.outbox ≡ map event_key db.events

map-append : {A B : Type 0} (f : A → B) (xs ys : List A) → map f (xs ++ ys) ≡ map f xs ++ map f ys
map-append f [] ys = refl
map-append f (x ∷ xs) ys = ap (◌∷◌ (f x)) (map-append f xs ys)

-- The row that InsertOutbox adds.
insert_outbox-keys :
    (t : Text) (gp : ℕ) (id : Uuid) (a b : Db)
    → wrapped (insert_outbox t gp id a) ≡ ok b
    → map entry_key b.outbox ≡ map entry_key a.outbox ++ (t, gp, id) ∷ []
unfolding insert_outbox
insert_outbox-keys t gp id a b h = outbox_case (any_row (same_entry t gp) a.outbox) h
  where
    added : OutboxEntry
    added = record {
      tenant_id = t;
      global_position = gp;
      event_id = id;
      published_at = none;
      attempts = 0;
      last_error = none;
      next_attempt_at = none;
    }

    outbox_case :
        (x : Bool)
        → wrapped (
            if x
            then err (unique_failed outbox_table)
            else ok (record a { outbox = a.outbox ++ added ∷ [] }))
          ≡ ok b
        → map entry_key b.outbox ≡ map entry_key a.outbox ++ (t, gp, id) ∷ []
    outbox_case true h = absurd (ground arith)
    outbox_case false h =
        let same : record a { outbox = a.outbox ++ added ∷ [] } ≡ b = cc in
        rw (← same) (map-append entry_key a.outbox (added ∷ []))

module _ (w : Wire) where
  mirror-event :
      (sid : StreamId) (expected : ℕ) (at : Text) (i : ℕ) (ev : EventToAppend) (l m : Loop)
      → append_event w sid expected at i ev l ≡ ok m
      → IsMirrored l.db
      → IsMirrored m.db
  unfolding event_row
  mirror-event sid expected at i ev l m h k =
      let s = append_event-Step w sid expected at i ev l m h in
      let key : Text × ℕ × Text = (sid.tenant, s.position, ev.event_id) in
      let queued : map entry_key m.db.outbox ≡ map event_key l.db.events ++ key ∷ [] =
        insert_outbox-keys sid.tenant s.position ev.event_id s.mid m.db s.queued
        ∙ ap (λ o. map entry_key o ++ key ∷ []) s.inserted.outbox
        ∙ ap (λ o. o ++ key ∷ []) k in
      let logged : map event_key m.db.events
          ≡ map event_key l.db.events ++ (sid.tenant, l.db.sequence + 1, ev.event_id) ∷ [] =
        ap (map event_key) (s.events ∙ s.inserted.events) ∙ map-append event_key l.db.events _ in
      let same : (sid.tenant, l.db.sequence + 1, ev.event_id) ≡ key =
        ap (λ n. (sid.tenant, n, ev.event_id)) (sym s.inserted.position) in
      queued ∙ sym (logged ∙ ap (λ x. map event_key l.db.events ++ x ∷ []) same)

  mirror-op :
      (sid : StreamId) (o : ConstraintOp) (a b : Db)
      → apply_op sid o a ≡ ok b
      → IsMirrored a
      → IsMirrored b
  mirror-op sid o a b h k =
      let same = apply_op-SameLog sid o a b h in
      ap (map entry_key) same.outbox ∙ k ∙ ap (map event_key) (sym same.events)

  mirror-state :
      (p : AppendParams) (at : Text) (a b : Db)
      → write_state w p at a ≡ ok b
      → IsMirrored a
      → IsMirrored b
  mirror-state p at a b h k =
      let same = write_state-SameLog w p at a b h in
      ap (map entry_key) same.outbox ∙ k ∙ ap (map event_key) (sym same.events)

  mirror-StepsKeep : StepsKeep w IsMirrored
  mirror-StepsKeep = record { op = mirror-op; event = mirror-event; state = mirror-state }

  -- The state of a database after some appends, in whatever way they end.
  pub data Appends : Db → Type 0 where
    none_yet : Appends empty_db
    append_more :
        {db : Db} (now : Time) (p : AppendParams) → Appends db → Appends (append w now p db).1

  -- After any appends to the empty store, the outbox has exactly one row for each event, with its
  -- tenant, its position and its id, in the order of the events.
  pub Appends-IsMirrored : (db : Db) → Appends db → IsMirrored db
  Appends-IsMirrored db none_yet = refl
  Appends-IsMirrored db (append_more {db = before} now p h) =
      append-keep w IsMirrored mirror-StepsKeep now p before (Appends-IsMirrored before h)
