-- ===== src/Sqlite/Aggregates/Cached.antt =====
-- The state_cache row that an append writes (adapters/storage/sqlite/append.go), and Load from it.
use eventstore.Base.{
  ℕ, zero, suc, ◌+◌, ◌≡◌, refl, sym, ap, ◌∙◌, subst, some, List, [], ◌∷◌, map, Text, text_eq_refl,
  ok, err, bind-ok, arith, ◌==◌, if◌then◌else◌, length, take, drop, inl, inr,
}
use eventstore.Es.Error.{Result}
use eventstore.Es.StreamId.{StreamId, validate, canonical}
use eventstore.Es.Envelope.{Envelope, AppendParams, AppendResult, StateCacheRow, Time}
use eventstore.Es.Wire.{Wire, RoundTrips}
use eventstore.Sqlite.Tables.{
  Db, EventRow, StateRow, put_state, stored_state, selected, find_state, upsert_state_cache,
}
use eventstore.Sqlite.Append.{
  append, append_tx, apply_ops, append_events, first_pass, write_state, put_cached,
}
use eventstore.Sqlite.Append.Laws.{append-Settled}
use eventstore.Sqlite.Read.{read_stream, collect, row_to_envelope}
use eventstore.Sqlite.Sound.{rows_of, IsSound}
use eventstore.Sqlite.Tail.{read_stream-drop}
use eventstore.Sqlite.Adapter.{sqlite_store, get_state, state_row, found_state}
use eventstore.Sqlite.EventLog.{Recorded, Log, Represents, view}
use eventstore.Aggregate.Runtime.{Runtime, Loaded, StateCodec, unborn, load, state_schema_version}
use eventstore.Aggregate.Cache.{Serves, RowCoherent, Same, load-cached}
use eventstore.Sqlite.Aggregates.Replay.{fold_events, replay-fold_events}

module _ (w : Wire) where
  collect-drop :
      (n : ℕ) (rs : List EventRow) (es : List Envelope)
      → collect w rs ≡ ok es
      → collect w (drop n rs) ≡ ok (drop n es)
  unfolding collect
  collect-drop zero rs es h = h
  collect-drop (suc n) [] es h = let none_left : [] ≡ es = cc in rw (← none_left) refl
  collect-drop (suc n) (r ∷ rs) es h =
      let (e, one, rest) = bind-ok (row_to_envelope w r) _ h in
      let (fs, more, last) = bind-ok (collect w rs) _ rest in
      let whole : e ∷ fs ≡ es = cc in rw (← whole) (collect-drop n rs fs more)

  -- The adapter serves the stream that it reads from version 0.
  pub sqlite-Serves :
      (sid : StreamId) (db : Db) (es : List Envelope)
      → IsSound w db
      → validate sid ≡ ok tt
      → read_stream w sid 0 db ≡ ok es
      → Serves (sqlite_store w) sid db es
  sqlite-Serves sid db es h valid all from =
      let rows = rows_of sid.tenant (canonical sid) db in
      read_stream-drop w sid from db h valid
      ∙ collect-drop from rows es (sym (read_stream-drop w sid 0 db h valid) ∙ all)

  -- What a successful append does last.
  pub append-write_state :
      (now : Time) (p : AppendParams) (db : Db) (r : AppendResult)
      → (append w now p db).0 ≡ ok r
      → (x : Db) × (write_state w p (w.format_time now) x ≡ ok (append w now p db).1)
  unfolding append_tx
  append-write_state now p db r done = elim (append-Settled w now p db) [
    | inl (e, failed, _) ↦ cc
    | inr (r', _, _, _, tx) ↦
        let (c, _, h₁) = bind-ok (apply_ops p.stream_id p.constraints db) _ tx in
        let (l, _, h₂) =
          bind-ok
            (append_events w p.stream_id p.expected_version (w.format_time now) 0 p.events
              (first_pass p.stream_id c))
            _ h₁ in
        let (d, stored, h₃) = bind-ok (write_state w p (w.format_time now) l.db) _ h₂ in
        let final : d ≡ (append w now p db).1 = cc in (l.db, stored ∙ ap ok final)
  ]

  stored_state-put_state :
      (row : StateRow) (rs : List StateRow)
      → stored_state row.tenant_id row.stream_id (put_state row rs) ≡ some row
  unfolding stored_state put_state
  stored_state-put_state row [] =
      ground (arith, text_eq_refl row.tenant_id, text_eq_refl row.stream_id)
  stored_state-put_state row (r ∷ rs) =
      ground (
        arith,
        text_eq_refl row.tenant_id,
        text_eq_refl row.stream_id,
        stored_state-put_state row rs,
      )

  -- The row that the append wrote is the one that GetState returns, if SQLite gives a text for the
  -- binary form of the state.
  abbrev pub Holds : AppendParams → Text → Db → Type 0
  Holds p bytes db =
      (state : Text) × (w.jsonb bytes ≡ ok state)
      × ((t : Text)
          → w.json state ≡ ok t
          → (row : StateCacheRow) × (get_state w p.stream_id.tenant (canonical p.stream_id) db
              ≡ ok row)
            × (row.state ≡ t)
            × (row.version ≡ p.expected_version + length p.events))

  put_cached-Holds :
      (rt : RoundTrips w) (now : Time) (p : AppendParams) (bytes : Text) (db db' : Db)
      → put_cached w p (w.format_time now) db (some bytes) ≡ ok db'
      → Holds p bytes db'
  unfolding get_state state_row upsert_state_cache find_state
  put_cached-Holds rt now p bytes db db' h =
      let (state, binary, rest) = bind-ok (w.jsonb bytes) _ h in
      let row : StateRow = record {
        tenant_id = p.stream_id.tenant;
        stream_id = canonical p.stream_id;
        type_url = p.state_type_url;
        state = state;
        version = p.expected_version + length p.events;
        terminal = p.terminal;
        state_schema_version = if p.state_schema_version == 0 then 1 else p.state_schema_version;
        updated_at = w.format_time now;
      } in
      let done : record db { states = put_state row db.states } ≡ db' = cc rest in
      subst (Holds p bytes) done (
        state,
        binary,
        λ t read. (
          record {
            tenant_id = p.stream_id.tenant;
            stream_id = canonical p.stream_id;
            type_url = p.state_type_url;
            state = t;
            version = p.expected_version + length p.events;
            terminal = p.terminal;
            state_schema_version =
                if p.state_schema_version == 0 then 1 else p.state_schema_version;
            updated_at = now;
          },
          ap (λ o. found_state w p.stream_id.tenant (canonical p.stream_id) (selected w.json o))
                (stored_state-put_state row db.states)
              ∙ rw (read, rt.time_back now) refl,
          refl,
          refl,
        ),
      )

  pub write_state-Holds :
      (rt : RoundTrips w) (now : Time) (p : AppendParams) (bytes : Text) (db db' : Db)
      → p.new_state ≡ some bytes
      → write_state w p (w.format_time now) db ≡ ok db'
      → Holds p bytes db'
  unfolding write_state
  write_state-Holds rt now p bytes db db' e h =
      put_cached-Holds rt now p bytes db db'
        (subst (λ o. put_cached w p (w.format_time now) db o ≡ ok db') e h)

map-take : (n : ℕ) (es : List Envelope) → map view (take n es) ≡ take n (map view es)
map-take zero es = refl
map-take (suc n) [] = refl
map-take (suc n) (e ∷ es) = ap (◌∷◌ (view e)) (map-take n es)

module _ {S C E : Type 0} (rt : Runtime S C E) (w : Wire) (sid : StreamId) where
  -- A row that Load would use holds the state after the events up to its version.
  abbrev pub CacheOk : StateCodec S → List Recorded → Result StateCacheRow → Type 0
  CacheOk sc xs (err e) = Unit
  CacheOk sc xs (ok row) =
      row.state_schema_version ≡ state_schema_version rt
      → (s : S) → sc.decode row.state ≡ ok s
      → (m : Loaded S) × (fold_events rt sid (unborn rt) (take row.version xs) ≡ ok m)
        × Same rt m (record { state = s; version = row.version; redacted = [] })

  -- The events of a stream lead to `l`, and so does its cached row as far as it goes.
  pub record Tracks (db : Db) (xs : List Recorded) (l : Loaded S) : Type 0 where
    pub folds : fold_events rt sid (unborn rt) xs ≡ ok l
    pub count : l.version ≡ length xs
    pub cached :
        (sc : StateCodec S)
        → rt.state_codec ≡ some sc
        → CacheOk sc xs (get_state w sid.tenant (canonical sid) db)

  CacheOk-RowCoherent :
      (sc : StateCodec S) (es : List Envelope) (r : Result StateCacheRow)
      → CacheOk sc (map view es) r
      → RowCoherent rt sc sid es r
  CacheOk-RowCoherent sc es (err e) c = tt
  CacheOk-RowCoherent sc es (ok row) c = λ v s h.
      let (m, folded, same) = c v s h in
      (
        m,
        replay-fold_events rt sid (unborn rt) (take row.version es)
            ∙ ap (fold_events rt sid (unborn rt)) (map-take row.version es)
            ∙ folded,
        same,
      )

  -- Load finds the tracked state, be it from the row or from the events.
  pub load-Tracks :
      (db : Db) (log : Log) (l : Loaded S)
      → IsSound w db
      → Represents w db log
      → validate sid ≡ ok tt
      → Tracks db (log sid) l
      → (l' : Loaded S) × (load rt (sqlite_store w) sid db ≡ ok l') × Same rt l l'
  load-Tracks db log l h r valid t =
      let (es, reads, views) = r sid valid in
      load-cached rt sid es (sqlite_store w) db l (sqlite-Serves w sid db es h valid reads)
        (λ sc e. CacheOk-RowCoherent sc es (get_state w sid.tenant (canonical sid) db) (
          subst (λ xs. CacheOk sc xs (get_state w sid.tenant (canonical sid) db)) (sym views)
            (t.cached sc e)))
        (replay-fold_events rt sid (unborn rt) es
          ∙ ap (fold_events rt sid (unborn rt)) views
          ∙ t.folds)
