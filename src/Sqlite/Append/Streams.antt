-- ===== src/Sqlite/Append/Streams.antt =====
-- Histories of appends (adapters/storage/sqlite/append.go) and what ReadStream and
-- VerifyStreamChain (es/chain.go) make of them.
use eventstore.Base.{
  ◌+◌, ◌^◌, ◌≤◌, ◌<◌, ◌≡◌, refl, ◌∙◌, inl, inr, ◌≢◌, List, [], ◌∷◌, ok, err, arith, length,
  where_rows,
}
use native.Mathlib.Decide.{dec_lt}
use eventstore.Es.Error.{Error}
use eventstore.Es.StreamId.{StreamId, validate, canonical}
use eventstore.Es.Envelope.{Envelope, AppendParams, AppendResult, Time}
use eventstore.Es.Wire.{Wire, HasDigests, RoundTrips}
use eventstore.Es.Chain.{zero_hash, verify_stream_chain}
use eventstore.Es.Chain.Verify.{verify_from_iff}
use eventstore.Sqlite.Tables.{Db, empty_db}
use eventstore.Sqlite.Append.{append}
use eventstore.Sqlite.Append.Laws.{
  stream_length, append_tx-Committed, append-Settled, append-stale, Committed-count,
}
use eventstore.Sqlite.Read.{read_stream}
use eventstore.Sqlite.Tail.{read_stream-drop}
use eventstore.Sqlite.Sound.{rows_of, IsSound, collect-Chained}

module _ (w : Wire) (rt : RoundTrips w) (d : HasDigests w) where
  -- An append that expects no later version than its stream has, and stays within the range of
  -- versions, leaves every stream with the versions 1, 2, … in order, readable and chained.
  pub append-IsSound :
      (now : Time) (p : AppendParams) (db : Db)
      → IsSound w db
      → p.expected_version ≤ stream_length p.stream_id db
      → p.expected_version + length p.events < 2 ^ 62
      → IsSound w (append w now p db).1
  append-IsSound now p db h at bound =
      elim (dec_lt p.expected_version (stream_length p.stream_id db)) [
        | yes stale ↦
            let (e, _, same) = append-stale w rt d now p db h stale (omega arith) in rw same h
        | no current ↦ elim (append-Settled w now p db) [
          | inl (e, _, same) ↦ rw same h
          | inr (r, _, valid, _, tx) ↦
              (Committed-count w rt d now p db (append w now p db).1 h valid (omega arith)
                (omega arith) (append_tx-Committed w now p db (append w now p db).1 r tx)).0
        ]
      ]

  -- A successful append at the current version makes its stream longer by its events.
  append-stream_length :
      (now : Time) (p : AppendParams) (db : Db) (r : AppendResult)
      → IsSound w db
      → p.expected_version ≤ stream_length p.stream_id db
      → p.expected_version + length p.events < 2 ^ 62
      → (append w now p db).0 ≡ ok r
      → stream_length p.stream_id (append w now p db).1 ≡ p.expected_version + length p.events
  append-stream_length now p db r h at bound done =
      elim (dec_lt p.expected_version (stream_length p.stream_id db)) [
        | yes stale ↦
            let (e, failed, _) = append-stale w rt d now p db h stale (omega arith) in
            cc (failed, done)
        | no current ↦ elim (append-Settled w now p db) [
          | inl (e, failed, _) ↦ cc
          | inr (r', _, valid, _, tx) ↦
              (Committed-count w rt d now p db (append w now p db).1 h valid (omega arith)
                (omega arith) (append_tx-Committed w now p db (append w now p db).1 r' tx)).1
        ]
      ]

  length-pos : {A : Type 0} (xs : List A) → xs ≢ [] → 0 < length xs
  length-pos [] h = absurd (h refl)
  length-pos (x ∷ xs) h = omega arith

  append-pos :
      (now : Time) (p : AppendParams) (db : Db) (r : AppendResult)
      → (append w now p db).0 ≡ ok r
      → 0 < length p.events
  append-pos now p db r done = elim (append-Settled w now p db) [
    | inl (e, failed, _) ↦ cc
    | inr (_, _, _, some', _) ↦ length-pos p.events some'
  ]

  -- The tables after any history of appends, each of which expects a version that its stream has
  -- reached: a caller has read it, and streams never shrink.
  pub data History : Db → Type 0 where
    start : History empty_db
    after :
        {db : Db} (now : Time) (p : AppendParams)
        → History db
        → p.expected_version ≤ stream_length p.stream_id db
        → p.expected_version + length p.events < 2 ^ 62
        → History (append w now p db).1

  start-IsSound : IsSound w empty_db
  unfolding where_rows
  start-IsSound t s = tt

  pub History-IsSound : {db : Db} → History db → IsSound w db
  History-IsSound start = start-IsSound
  History-IsSound (after {db = db} now p h at bound) =
      append-IsSound now p db (History-IsSound h) at bound

  -- After any such history, reading a valid stream id gives all events of its stream, and their
  -- hash chain verifies.
  pub History-verifies :
      (sid : StreamId) (db : Db)
      → History db
      → validate sid ≡ ok tt
      → (es : List Envelope) × (read_stream w sid 0 db ≡ ok es)
        × (verify_stream_chain w (read_stream w sid 0 db) ≡ ok tt)
        × (length es ≡ stream_length sid db)
  unfolding verify_stream_chain
  History-verifies sid db h valid =
      let sound = History-IsSound h in
      let (es, e, chained, len) =
        collect-Chained w zero_hash 0 (rows_of sid.tenant (canonical sid) db)
          (sound sid.tenant (canonical sid)) in
      let reads = read_stream-drop w sid 0 db sound valid ∙ e in
      (es, reads, rw reads ((verify_from_iff w zero_hash es).1 chained), len)

  -- Of two appends to one stream that expect the same version, the second fails and changes
  -- nothing if the first succeeded.
  pub append-race :
      (now later : Time) (p q : AppendParams) (db : Db) (r : AppendResult)
      → History db
      → p.expected_version ≤ stream_length p.stream_id db
      → p.expected_version + length p.events < 2 ^ 62
      → q.stream_id ≡ p.stream_id
      → q.expected_version ≡ p.expected_version
      → (append w now p db).0 ≡ ok r
      → (e : Error) × ((append w later q (append w now p db).1).0 ≡ err e)
        × ((append w later q (append w now p db).1).1 ≡ (append w now p db).1)
  append-race now later p q db r h at bound stream expected done =
      let longer = append-stream_length now p db r (History-IsSound h) at bound done in
      let some' = append-pos now p db r done in
      append-stale w rt d later q (append w now p db).1
        (append-IsSound now p db (History-IsSound h) at bound) (rw stream (omega arith))
        (omega arith)
