-- ===== src/Sqlite/Append/Preserve.antt =====
-- Every append (adapters/storage/sqlite/append.go) that expects no later version than the stream
-- has leaves the table of events well formed.
use eventstore.Base.{
  ℕ, suc, ◌+◌, ◌^◌, ◌≤◌, ◌<◌, ◌≡◌, refl, sym, ap, ◌∙◌, inl, inr, ◌≢◌, true, ◌&&◌, List, [], ◌∷◌,
  ◌++◌, Text, ok, bind-ok, arith, if◌then◌else◌, length, append-nil, length-append, Bool-cases,
  text_eq_iff, text_eq_refl, any_row, any_row-where_rows, ◌==◌, subst, zero-add,
}
use eventstore.Es.StreamId.{StreamId, validate, canonical}
use eventstore.Es.Envelope.{EventToAppend, Time}
use eventstore.Es.Wire.{Wire, RoundTrips}
use eventstore.Es.Chain.{zero_hash}
use eventstore.Sqlite.Tables.{Db, EventRow, in_stream}
use eventstore.Sqlite.Append.{Loop, u64, append_event, append_events, event_row}
use eventstore.Sqlite.Append.Sound.{
  Step, append_event-Step, LoopOk, new_RowOk, rows_of-snoc, last_hash-snoc,
}
use eventstore.Sqlite.Sound.{rows_of, last_hash, RowOk, StreamOk, IsSound, StreamOk-snoc}

module _ (w : Wire) (rt : RoundTrips w) where
  -- A row that continues its stream, at the end of the table, keeps every stream well formed.
  snoc-StreamOk :
      (u v : Text) (a : Db) (row : EventRow)
      → IsSound w a
      → row.tenant_id ≡ u
      → row.stream_id ≡ v
      → RowOk w (last_hash zero_hash (rows_of u v a)) (length (rows_of u v a)) row
      → (t s : Text)
      → StreamOk w zero_hash 0 (rows_of t s a ++ (if in_stream t s row then row ∷ [] else []))
  snoc-StreamOk u v a row sound eu ev good t s = elim (Bool-cases (in_stream t s row)) [
    | inr other ↦ rw (other, append-nil) (sound t s)
    | inl mine ↦
        let at = sym eu ∙ (text_eq_iff row.tenant_id t).0 (ground arith) in
        let as' = sym ev ∙ (text_eq_iff row.stream_id s).0 (ground arith) in
        rw mine (
          StreamOk-snoc w zero_hash 0 (rows_of t s a) row (sound t s)
            (rw zero-add (rw (at, as') at good)))
  ]

  -- One pass of the loop extends its stream by one well-formed row.
  step-LoopOk :
      (sid : StreamId) (expected i n : ℕ) (now : Time) (ev : EventToAppend) (l l' : Loop)
      → validate sid ≡ ok tt
      → LoopOk w rt sid n l
      → u64 (expected + i + 1) ≡ suc n
      → append_event w sid expected (w.format_time now) i ev l ≡ ok l'
      → LoopOk w rt sid (suc n) l'
  unfolding event_row
  step-LoopOk sid expected i n now ev l l' valid h version run =
      let st =
        subst (λ v. Step w sid v (w.format_time now) ev l l') version
          (append_event-Step w sid expected (w.format_time now) i ev l l' run) in
      let u = sid.tenant in
      let v = canonical sid in
      let row : EventRow =
        record (event_row w sid (suc n) ev st.actor (w.format_time now) l'.prev_hash l.prev_hash) {
          global_position = l.db.sequence + 1;
        } in
      let events = st.events ∙ st.inserted.events in
      let good : RowOk w (last_hash zero_hash (rows_of u v l.db)) (length (rows_of u v l.db)) row =
        rw (h.count, ← h.prev) (new_RowOk w rt sid n ev now l l' valid st) in
      let mine : in_stream u v row ≡ true = rw (text_eq_refl u) (text_eq_refl v) in
      let rows : rows_of u v l'.db ≡ rows_of u v l.db ++ row ∷ [] =
        rows_of-snoc w rt u v l.db l'.db row events
        ∙ ap (λ b. rows_of u v l.db ++ (if b then row ∷ [] else [])) mine in
      record {
        sound = λ t s.
            rw (rows_of-snoc w rt t s l.db l'.db row events)
              (snoc-StreamOk u v l.db row h.sound refl refl good t s);
        prev =
            sym (
              ap (last_hash zero_hash) rows ∙ last_hash-snoc w rt zero_hash (rows_of u v l.db) row);
        count = omega (arith, ap length rows, length-append (rows_of u v l.db) (row ∷ []), h.count);
      }

  pub loop-LoopOk :
      (sid : StreamId) (expected i : ℕ) (now : Time) (evs : List EventToAppend) (l l' : Loop)
      → validate sid ≡ ok tt
      → LoopOk w rt sid (expected + i) l
      → expected + i + length evs < 2 ^ 63
      → append_events w sid expected (w.format_time now) i evs l ≡ ok l'
      → LoopOk w rt sid (expected + i + length evs) l'
  unfolding append_events
  loop-LoopOk sid expected i now [] l l' valid h bound run =
      let same : l ≡ l' = cc in
      let none_left : expected + i ≡ expected + i + 0 = omega arith in
      subst (λ n. LoopOk w rt sid n l') none_left (subst (LoopOk w rt sid (expected + i)) same h)
  loop-LoopOk sid expected i now (ev ∷ evs) l l' valid h bound run =
      let (m, one, rest) =
        bind-ok (append_event w sid expected (w.format_time now) i ev l)
          (append_events w sid expected (w.format_time now) (suc i) evs) run in
      let here = step-LoopOk sid expected i (expected + i) now ev l m valid h (omega arith) one in
      let moved : suc (expected + i) ≡ expected + suc i = omega arith in
      let there =
        loop-LoopOk sid expected (suc i) now evs m l' valid
          (subst (λ n. LoopOk w rt sid n m) moved here) (omega arith) rest in
      let total : expected + suc i + length evs ≡ expected + i + length (ev ∷ evs) = omega arith in
      subst (λ n. LoopOk w rt sid n l') total there

  any-version :
      (p : Text) (k v : ℕ) (rs : List EventRow)
      → StreamOk w p k rs
      → k < v
      → v ≤ k + length rs
      → any_row (λ r. r.version == v) rs ≡ true
  unfolding any_row
  any-version p k v [] h a b = absurd (omega arith)
  any-version p k v (r ∷ rs) h a b =
      ground (arith, h.0.in_turn, any-version r.hash (suc k) v rs h.1)

  -- A version that the stream has already is in the table.
  taken :
      (t s : Text) (v : ℕ) (a : Db)
      → IsSound w a
      → 0 < v
      → v ≤ length (rows_of t s a)
      → any_row (λ r. in_stream t s r && r.version == v) a.events ≡ true
  taken t s v a h lo hi =
      any_row-where_rows (in_stream t s) (λ r. r.version == v) a.events
        (any-version zero_hash 0 v (rows_of t s a) (h t s) lo (omega arith))

  -- An event is refused whose version its stream has already.
  pub append_event-stale :
      (sid : StreamId) (expected i : ℕ) (recorded_at : Text) (ev : EventToAppend) (l l' : Loop)
      → IsSound w l.db
      → expected + i < length (rows_of sid.tenant (canonical sid) l.db)
      → expected + i + 1 < 2 ^ 63
      → append_event w sid expected recorded_at i ev l ≢ ok l'
  unfolding event_row
  append_event-stale sid expected i recorded_at ev l l' h stale bound run =
      let st = append_event-Step w sid expected recorded_at i ev l l' run in
      let version : expected + i + 1 ≡ u64 (expected + i + 1) = omega arith in
      let clash =
        taken sid.tenant (canonical sid) (expected + i + 1) l.db h (omega arith) (omega arith) in
      cc (
        subst
            (λ v.
              any_row (λ r. in_stream sid.tenant (canonical sid) r && r.version == v) l.db.events
              ≡ true)
            version clash,
        st.inserted.new_version,
      )
