-- ===== src/Sqlite/EventLog/Refines.antt =====
-- The append and the read of the sqlite adapter implement the abstract log.
use eventstore.Base.{
  suc, ◌+◌, ◌^◌, ◌≤◌, ◌<◌, ◌≡◌, refl, sym, ap, ◌∙◌, subst, ◌⊎◌, inl, inr, true, List, [], ◌∷◌, ◌++◌,
  map, ok, err, arith, if◌then◌else◌, length, where_rows, text_eq_iff, text_eq_refl, Bool-cases,
}
use native.Mathlib.Decide.{dec_lt}
use eventstore.Es.Error.{Error}
use eventstore.Es.StreamId.{StreamId, validate, canonical}
use eventstore.Es.StreamId.RoundTrip.{canonical-injective}
use eventstore.Es.Envelope.{Envelope, AppendParams, AppendResult, Time}
use eventstore.Es.Wire.{Wire, RoundTrips, HasDigests}
use eventstore.Es.Chain.{zero_hash}
use eventstore.Sqlite.Tables.{Db, empty_db}
use eventstore.Sqlite.Read.{read_stream, collect}
use eventstore.Sqlite.Sound.{rows_of, collect-Chained, IsSound}
use eventstore.Sqlite.Tail.{read_stream-drop}
use eventstore.Sqlite.Append.{append, first_pass}
use eventstore.Sqlite.Append.Laws.{
  stream_length, append-Settled, append-stale, append_tx-Committed, Committed,
}
use eventstore.Sqlite.Append.Streams.{History, start, after, History-IsSound}
use eventstore.Sqlite.EventLog.{
  Log, Recorded, Represents, empty_log, log_append, recorded, same_id, view,
}
use eventstore.Sqlite.EventLog.Contents.{Contents, Contents-events, loop-Contents, is_mine}

module _ (w : Wire) (rt : RoundTrips w) (d : HasDigests w) where
  same_id-eq : (a b : StreamId) → same_id a b ≡ true → a ≡ b
  unfolding same_id
  same_id-eq a b h =
      let t = (text_eq_iff a.tenant b.tenant).0 (ground arith) in
      let k = (text_eq_iff a.typ b.typ).0 (ground arith) in
      let i = (text_eq_iff a.id b.id).0 (ground arith) in cc (t, k, i)

  pub same_id_refl : (a : StreamId) → same_id a a ≡ true
  unfolding same_id
  same_id_refl a = ground (arith, text_eq_refl a.tenant, text_eq_refl a.typ, text_eq_refl a.id)

  pub log_append_self :
      (now : Time) (p : AppendParams) (log : Log)
      → log_append now p log p.stream_id
        ≡ log p.stream_id ++ recorded now p.expected_version p.events
  unfolding log_append
  log_append_self now p log =
      ap (λ b. log p.stream_id ++ (if b then recorded now p.expected_version p.events else []))
        (same_id_refl p.stream_id)

  is_mine_refl : (a : StreamId) → is_mine w rt a.tenant (canonical a) a ≡ true
  is_mine_refl a = ground (arith, text_eq_refl a.tenant, text_eq_refl (canonical a))

  -- Two valid ids name one stream of the tables exactly where they are the same.
  mine-same_id :
      (a b : StreamId)
      → validate a ≡ ok tt
      → validate b ≡ ok tt
      → is_mine w rt b.tenant (canonical b) a ≡ same_id a b
  mine-same_id a b va vb = elim (Bool-cases (is_mine w rt b.tenant (canonical b) a)) [
    | inl mine ↦
        let t = (text_eq_iff a.tenant b.tenant).0 (ground arith) in
        let c = (text_eq_iff (canonical a) (canonical b)).0 (ground arith) in
        let same = canonical-injective a b va vb t c in
        mine ∙ sym (subst (λ x. same_id a x ≡ true) same (same_id_refl a))
    | inr other ↦ elim (Bool-cases (same_id a b)) [
      | inr differ ↦ other ∙ sym differ
      | inl same ↦
          let mine =
            subst (λ x. is_mine w rt x.tenant (canonical x) a ≡ true) (same_id-eq a b same)
              (is_mine_refl a) in
          cc
    ]
  ]

  read-rows :
      (sid : StreamId) (db : Db)
      → IsSound w db
      → validate sid ≡ ok tt
      → read_stream w sid 0 db ≡ collect w (rows_of sid.tenant (canonical sid) db)
  read-rows sid db h valid = read_stream-drop w sid 0 db h valid

  Committed-Contents :
      (now : Time) (p : AppendParams) (db db' : Db) (sid : StreamId) (xs : List Recorded)
      → validate p.stream_id ≡ ok tt
      → p.expected_version + length p.events < 2 ^ 62
      → Committed w now p db db'
      → Contents w sid.tenant (canonical sid) db xs
      → Contents w sid.tenant (canonical sid) db' (
          xs
          ++ (if is_mine w rt sid.tenant (canonical sid) p.stream_id
              then recorded now p.expected_version p.events
              else []))
  Committed-Contents now p db db' sid xs valid bound k c =
      let t = sid.tenant in
      let s = canonical sid in
      let there : p.expected_version + 0 ≡ p.expected_version = omega arith in
      let looped =
        loop-Contents w rt t s p.stream_id p.expected_version 0 now p.events
          (first_pass p.stream_id k.claimed) k.loop xs valid (omega arith) k.ran
          (Contents-events w t s db k.claimed xs k.same_events c) in
      Contents-events w t s k.loop.db db' _ k.events (
        subst
          (λ v.
            Contents w t s k.loop.db
              (xs ++ (if is_mine w rt t s p.stream_id then recorded now v p.events else [])))
          there looped)

  -- The rows of a represented stream.
  Represents-Contents :
      (db : Db) (log : Log) (sid : StreamId)
      → IsSound w db
      → Represents w db log
      → validate sid ≡ ok tt
      → Contents w sid.tenant (canonical sid) db (log sid)
  Represents-Contents db log sid h r valid =
      let (es, reads, views) = r sid valid in
      record { envs = es; reads = sym (read-rows sid db h valid) ∙ reads; views = views }

  -- A represented stream is as long as its rows.
  pub length-log :
      (db : Db) (log : Log) (sid : StreamId)
      → IsSound w db
      → Represents w db log
      → validate sid ≡ ok tt
      → length (log sid) ≡ stream_length sid db
  length-log db log sid h r valid =
      let (es, reads, views) = r sid valid in
      let (es', collected, _, n) =
        collect-Chained w zero_hash 0 (rows_of sid.tenant (canonical sid) db)
          (h sid.tenant (canonical sid)) in
      let same : es' ≡ es = cc (read-rows sid db h valid, collected, reads) in
      ap length (sym views) ∙ length-map es ∙ ap length (sym same) ∙ n
    where
      length-map : (xs : List Envelope) → length (map view xs) ≡ length xs
      length-map [] = refl
      length-map (x ∷ xs) = ap suc (length-map xs)

  extended :
      (now : Time) (p : AppendParams) (db db' : Db) (log : Log)
      → IsSound w db
      → IsSound w db'
      → Represents w db log
      → validate p.stream_id ≡ ok tt
      → p.expected_version + length p.events < 2 ^ 62
      → Committed w now p db db'
      → Represents w db' (log_append now p log)
  unfolding log_append
  extended now p db db' log h h' r valid bound k sid mine =
      let c =
        Committed-Contents now p db db' sid (log sid) valid bound k
          (Represents-Contents db log sid h r mine) in
      let same =
        ap (λ b. log sid ++ (if b then recorded now p.expected_version p.events else []))
          (mine-same_id p.stream_id sid valid mine) in
      (c.envs, read-rows sid db' h' mine ∙ c.reads, c.views ∙ same)

  -- The outcome of an append that the abstract log allows: it fails and leaves the log as it was,
  -- or the expected version is the stream's length and the log is extended.
  abbrev pub Implements : Time → AppendParams → Log → Db → Db → Type 0
  Implements now p log db db' =
      ((e : Error) × ((append w now p db).0 ≡ err e) × Represents w db' log)
      ⊎ ((r : AppendResult) × ((append w now p db).0 ≡ ok r)
          × (length (log p.stream_id) ≡ p.expected_version)
          × Represents w db' (log_append now p log))

  -- After a history of appends, from a store whose streams read as the log says, an append that
  -- expects a version that its stream has reached and whose versions stay below 2 ^ 62 either fails
  -- and leaves the store reading as the log, or succeeds, where the expected version is the length
  -- of the stream in the log, and the store then reads as the log with the new events at the end
  -- of that stream and every other stream as before.
  pub append-Implements :
      (now : Time) (p : AppendParams) (db : Db) (log : Log)
      → History w rt d db
      → Represents w db log
      → p.expected_version ≤ stream_length p.stream_id db
      → p.expected_version + length p.events < 2 ^ 62
      → Implements now p log db (append w now p db).1
  append-Implements now p db log h r at bound =
      let sound = History-IsSound w rt d h in
      let sound' = History-IsSound w rt d (after now p h at bound) in
      elim (append-Settled w now p db) [
        | inl (e, failed, same) ↦ inl (e, failed, subst (λ x. Represents w x log) (sym same) r)
        | inr (res, done, valid, some', tx) ↦
            elim (dec_lt p.expected_version (stream_length p.stream_id db)) [
              | yes stale ↦
                  let (e, failed, _) = append-stale w rt d now p db sound stale (omega arith) in
                  cc (failed, done)
              | no current ↦ inr (
                res,
                done,
                omega (arith, length-log db log p.stream_id sound r valid),
                extended now p db (append w now p db).1 log sound sound' r valid bound
                    (append_tx-Committed w now p db (append w now p db).1 res tx),
              )
            ]
      ]

  pub start-Represents : Represents w empty_db empty_log
  unfolding where_rows collect
  start-Represents sid valid =
      ([], read-rows sid empty_db (History-IsSound w rt d start) valid, refl)
