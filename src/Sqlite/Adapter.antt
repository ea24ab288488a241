-- ===== src/Sqlite/Adapter.antt =====
-- adapters/storage/sqlite/state_cache.go, and the adapter as the store of aggregate/runtime.go.
use eventstore.Base.{
  Option, ℕ, ◌≡◌, Bool, true, not, ◌&&◌, inl, inr, none, some, List, [], Text, text_eq, ok, err,
  ◌>>=◌, ◌==◌, if◌then◌else◌, length, where_rows,
}
use eventstore.Es.Error.{Error, Result, state_not_found}
use eventstore.Es.StreamId.{StreamId}
use eventstore.Es.Envelope.{StateCacheRow, Time, Uuid}
use eventstore.Es.Wire.{Wire}
use eventstore.Sqlite.Tables.{Db, StateRow, find_state, upsert_state_cache}
use eventstore.Sqlite.Append.{append}
use eventstore.Sqlite.Append.Laws.{append-Settled}
use eventstore.Sqlite.Read.{read_stream}
use eventstore.Aggregate.Runtime.{Store, Runtime, HandleOption}
use eventstore.Aggregate.Handle.{handle}
use eventstore.Aggregate.Cache.{IsAtomic, handle-atomic}

module _ (w : Wire) where
  unfoldable pub state_row : Text → Text → StateRow → Result StateCacheRow
  state_row t s row = do
    updated ← w.parse_time row.updated_at
    ok (record {
      tenant_id = t;
      stream_id = s;
      type_url = row.type_url;
      state = row.state;
      version = row.version;
      terminal = row.terminal;
      state_schema_version = row.state_schema_version;
      updated_at = updated;
    })

  abbrev pub found_state : Text → Text → Result (Option StateRow) → Result StateCacheRow
  found_state t s (err e) = err e
  found_state t s (ok none) = err state_not_found
  found_state t s (ok (some row)) = state_row t s row

  -- GetState.
  unfoldable pub get_state : Text → Text → Db → Result StateCacheRow
  unfolding state_row
  get_state t s db = found_state t s (find_state w.json t s db.states)

  -- UpsertCachedState.
  unfoldable pub upsert_cached_state : Time → StateCacheRow → Db → Result Db
  upsert_cached_state now row db =
      upsert_state_cache w.jsonb
        (record {
          tenant_id = row.tenant_id;
          stream_id = row.stream_id;
          type_url = row.type_url;
          state = row.state;
          version = row.version;
          terminal = row.terminal;
          state_schema_version =
              if row.state_schema_version == 0 then 1 else row.state_schema_version;
          updated_at = w.format_time now;
        })
        db

  -- The adapter as an es.Store.
  abbrev pub sqlite_store : Store Db
  sqlite_store = record { append = append w; read_stream = read_stream w; get_state = get_state }

  append-IsAtomic : IsAtomic sqlite_store
  append-IsAtomic now p db e h = elim (append-Settled w now p db) [
    | inl (x, _, same) ↦ same
    | inr (r, done, _, _, _) ↦ cc
  ]

  module _ {S C E K : Type 0} (rt : Runtime S C E)
      (encrypt : Text → Text → E → K → Result E × K) where
    -- A Handle over the sqlite adapter that fails, in the load, the decision, the encryption, the
    -- encoding or the append, leaves the events, the outbox, the claims, the cached states and the
    -- sequence as they were, whatever subject keys the encryption has added.
    pub handle-unchanged :
        (now : Time) (cid : Uuid) (fresh : ℕ → Uuid) (sid : StreamId) (cmd : C)
        (opts : List HandleOption) (db : Db) (k : K) (e : Error)
        → (handle rt encrypt sqlite_store now cid fresh sid cmd opts db k).0 ≡ err e
        → (handle rt encrypt sqlite_store now cid fresh sid cmd opts db k).1.0 ≡ db
    handle-unchanged now cid fresh sid cmd opts db k e h =
        handle-atomic rt encrypt sqlite_store append-IsAtomic now cid fresh sid cmd opts db k e h

-- WipeStateCacheForType, with the number of rows removed; the empty tenant stands for all.
unfoldable pub wipe_state_cache_for_type : Text → Text → Db → ℕ × Db
wipe_state_cache_for_type t type_url db =
    let hit : StateRow → Bool =
      λ r. text_eq r.type_url type_url && (if text_eq t [] then true else text_eq r.tenant_id t) in
    (
      length (where_rows hit db.states),
      record db { states = where_rows (λ r. not (hit r)) db.states },
    )
