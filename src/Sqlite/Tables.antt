-- ===== src/Sqlite/Tables.antt =====
-- The tables of adapters/storage/sqlite/migrations and the queries of adapters/storage/sqlite/
-- internal/db that the append and read paths use. A NULL text or blob is the empty one, but for the
-- outbox columns that the queries test for NULL. Versions and positions stay below 2^63, the range
-- of the INTEGER columns.
use eventstore.Base.{
  ℕ, ◌+◌, Bool, true, false, ◌&&◌, ◌||◌, Option, none, some, List, [], ◌∷◌, ◌++◌, Text, text_eq,
  Outcome, ok, err, ltb, ◌==◌, if◌then◌else◌, take, where_rows, any_row, ◌>>=◌,
}
use eventstore.Es.Error.{Result}
use eventstore.Es.Envelope.{Uuid}

pub record EventRow : Type 0 where
  pub event_id : Uuid
  pub tenant_id : Text
  pub stream_id : Text
  pub version : ℕ
  pub global_position : ℕ
  pub type_url : Text
  pub schema_version : ℕ
  pub occurred_at : Text
  pub recorded_at : Text
  pub correlation_id : Uuid
  pub causation_id : Uuid
  pub command_id : Uuid
  pub actor : Text
  pub actor_principal : Text
  pub payload : Text
  pub payload_json : Text
  pub key_refs : Text
  pub hash : Text
  pub prev_hash : Text

pub record ClaimRow : Type 0 where
  pub tenant_id : Text
  pub scope : Text
  pub value : Text
  pub stream_id : Text

pub record OutboxEntry : Type 0 where
  pub tenant_id : Text
  pub global_position : ℕ
  pub event_id : Uuid
  pub published_at : Option Text
  pub attempts : ℕ
  pub last_error : Option Text
  pub next_attempt_at : Option Text

-- In the table the state is in the binary form of SQLite's JSONB; UpsertStateCache takes a row with
-- the JSON text, and the queries give one.
pub record StateRow : Type 0 where
  pub tenant_id : Text
  pub stream_id : Text
  pub type_url : Text
  pub state : Text
  pub version : ℕ
  pub terminal : Bool
  pub state_schema_version : ℕ
  pub updated_at : Text

-- `sequence` is the last global position that AUTOINCREMENT gave out.
pub record Db : Type 0 where
  pub events : List EventRow
  pub claims : List ClaimRow
  pub outbox : List OutboxEntry
  pub states : List StateRow
  pub sequence : ℕ

abbrev pub empty_db : Db
empty_db = record { events = []; claims = []; outbox = []; states = []; sequence = 0 }

pub data Table : Type 0 where
  events_table unique_claims_table outbox_table : Table

-- A driver error that names the table whose UNIQUE constraint failed.
pub data DbError : Type 0 where
  unique_failed : Table → DbError

abbrev pub in_stream : Text → Text → EventRow → Bool
in_stream t s r = text_eq r.tenant_id t && text_eq r.stream_id s

abbrev pub same_version : EventRow → EventRow → Bool
same_version row r = in_stream row.tenant_id row.stream_id r && r.version == row.version

abbrev pub same_event : EventRow → EventRow → Bool
same_event row r = text_eq r.tenant_id row.tenant_id && text_eq r.event_id row.event_id

-- InsertEvent: the two UNIQUE constraints of the table, and the position that it hands out.
unfoldable pub insert_event : EventRow → Db → Outcome DbError (ℕ × Db)
insert_event row db =
    if any_row (same_version row) db.events || any_row (same_event row) db.events
    then err (unique_failed events_table)
    else ok (
      db.sequence + 1,
      record db {
        events = db.events ++ record row { global_position = db.sequence + 1 } ∷ [];
        sequence = db.sequence + 1;
      },
    )

abbrev pub same_entry : Text → ℕ → OutboxEntry → Bool
same_entry t gp o = text_eq o.tenant_id t && o.global_position == gp

-- InsertOutbox.
unfoldable pub insert_outbox : Text → ℕ → Uuid → Db → Outcome DbError Db
insert_outbox t gp event_id db =
    if any_row (same_entry t gp) db.outbox
    then err (unique_failed outbox_table)
    else ok (record db {
      outbox =
          db.outbox
          ++ record {
            tenant_id = t;
            global_position = gp;
            event_id = event_id;
            published_at = none;
            attempts = 0;
            last_error = none;
            next_attempt_at = none;
          }
            ∷ [];
    })

abbrev pub same_claim : Text → Text → Text → ClaimRow → Bool
same_claim t scope value c = text_eq c.tenant_id t && text_eq c.scope scope && text_eq c.value value

-- ClaimUnique.
unfoldable pub claim_unique : Text → Text → Text → Text → Db → Outcome DbError Db
claim_unique t scope value stream db =
    if any_row (same_claim t scope value) db.claims
    then err (unique_failed unique_claims_table)
    else ok (record db {
      claims =
          db.claims
          ++ record { tenant_id = t; scope = scope; value = value; stream_id = stream } ∷ [];
    })

-- ReleaseUnique.
unfoldable pub release_unique : Text → Text → Text → Db → Db
release_unique t scope value db = record db {
  claims = where_rows (λ c. if same_claim t scope value c then false else true) db.claims;
}

-- The row with the greatest version, as by ORDER BY version DESC LIMIT 1.
unfoldable pub top_row : List EventRow → Option EventRow
top_row [] = none
top_row (r ∷ rs) = elim (top_row rs) [
  | none ↦ some r
  | some t ↦ if ltb t.version r.version then some r else some t
]

abbrev pub hash_of : Option EventRow → Text
hash_of none = []
hash_of (some r) = r.hash

-- LastStreamHash; no row gives the empty hash, as the caller takes sql.ErrNoRows.
unfoldable pub last_stream_hash : Text → Text → Db → Text
unfolding top_row
last_stream_hash t s db = hash_of (top_row (where_rows (in_stream t s) db.events))

abbrev pub same_state : Text → Text → StateRow → Bool
same_state t s r = text_eq r.tenant_id t && text_eq r.stream_id s

unfoldable pub put_state : StateRow → List StateRow → List StateRow
put_state row [] = row ∷ []
put_state row (r ∷ rs) =
    let rest = put_state row rs in
    if same_state row.tenant_id row.stream_id r then row ∷ rs else r ∷ rest

-- UpsertStateCache. The state that comes in is a JSON text, of which the statement's jsonb(?) makes
-- the binary form, or fails.
unfoldable pub upsert_state_cache : (Text → Result Text) → StateRow → Db → Result Db
unfolding put_state
upsert_state_cache jsonb row db = do
  state ← jsonb row.state
  ok (record db { states = put_state (record row { state = state }) db.states })

unfoldable pub stored_state : Text → Text → List StateRow → Option StateRow
stored_state t s [] = none
stored_state t s (r ∷ rs) = if same_state t s r then some r else stored_state t s rs

abbrev pub selected : (Text → Result Text) → Option StateRow → Result (Option StateRow)
selected json none = ok none
selected json (some r) = do state ← json r.state; ok (some (record r { state = state }))

-- GetState, which selects json(state), the text for the binary form.
unfoldable pub find_state :
    (Text → Result Text) → Text → Text → List StateRow → Result (Option StateRow)
find_state json t s rs = selected json (stored_state t s rs)

-- ORDER BY version.
unfoldable pub insert_by_version : EventRow → List EventRow → List EventRow
insert_by_version r [] = r ∷ []
insert_by_version r (x ∷ xs) =
    let rest = insert_by_version r xs in if ltb x.version r.version then x ∷ rest else r ∷ x ∷ xs

unfoldable pub order_by_version : List EventRow → List EventRow
unfolding insert_by_version
order_by_version [] = []
order_by_version (r ∷ rs) = insert_by_version r (order_by_version rs)

-- ReadStreamFromVersion.
unfoldable pub read_stream_from_version : Text → Text → ℕ → Db → List EventRow
unfolding order_by_version
read_stream_from_version t s from db =
    order_by_version (where_rows (λ r. in_stream t s r && ltb from r.version) db.events)

-- CurrentStreamVersion.
unfoldable pub max_version : List EventRow → ℕ
max_version [] = 0
max_version (r ∷ rs) = let m = max_version rs in if ltb m r.version then r.version else m

-- ReadAllFromPosition. Rows are inserted in the order of their positions, so the table is read in
-- its own order.
unfoldable pub read_all_from_position : ℕ → ℕ → Db → List EventRow
read_all_from_position from limit db =
    take limit (where_rows (λ r. ltb from r.global_position) db.events)

-- ReadAllFromPositionTenant.
unfoldable pub read_all_from_position_tenant : Text → ℕ → ℕ → Db → List EventRow
read_all_from_position_tenant t from limit db =
    take limit (where_rows (λ r. text_eq r.tenant_id t && ltb from r.global_position) db.events)
