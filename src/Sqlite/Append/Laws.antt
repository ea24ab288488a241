-- ===== src/Sqlite/Append/Laws.antt =====
-- What the method Append of adapters/storage/sqlite/append.go promises.
use eventstore.Base.{
  ℕ, ◌+◌, ◌^◌, ◌<◌, ◌≡◌, refl, sym, ap, ◌∙◌, ◌⊎◌, inl, inr, ◌≢◌, List, [], ◌∷◌, ok, err, bind-ok,
  arith, length, subst,
}
use eventstore.Es.Error.{Error, Result}
use eventstore.Es.StreamId.{StreamId, validate, canonical}
use eventstore.Es.Envelope.{EventToAppend, AppendParams, AppendResult, Time}
use eventstore.Es.Wire.{Wire, HasDigests, RoundTrips}
use eventstore.Sqlite.Tables.{Db}
use eventstore.Sqlite.Append.{
  Loop, append_event, append_events, append_tx, append, append_checked, append_valid, with_tx,
  finish_tx, first_pass, apply_ops, write_state,
}
use eventstore.Sqlite.Append.Keeps.{apply_ops-SameLog, write_state-SameLog}
use eventstore.Sqlite.Append.Sound.{LoopOk}
use eventstore.Sqlite.Append.Preserve.{loop-LoopOk, append_event-stale}
use eventstore.Sqlite.Sound.{rows_of, IsSound, last_stream_hash-last}

-- The number of events of a stream.
abbrev pub stream_length : StreamId → Db → ℕ
stream_length sid db = length (rows_of sid.tenant (canonical sid) db)

module _ (w : Wire) where
  -- The loop over the events of a transaction that commits.
  pub record Committed (now : Time) (p : AppendParams) (db db' : Db) : Type 0 where
    pub claimed : Db
    pub same_events : claimed.events ≡ db.events
    pub loop : Loop
    pub ran :
        append_events w p.stream_id p.expected_version
          (w.format_time now)
          0
          p.events
          (first_pass p.stream_id claimed)
        ≡ ok loop
    pub events : db'.events ≡ loop.db.events

  pub append_tx-Committed :
      (now : Time) (p : AppendParams) (db db' : Db) (r : AppendResult)
      → append_tx w now p db ≡ ok (r, db')
      → Committed now p db db'
  unfolding append_tx
  append_tx-Committed now p db db' r h =
      let (c, claims, h₁) = bind-ok (apply_ops p.stream_id p.constraints db) _ h in
      let (l, ran, h₂) =
        bind-ok
          (append_events w p.stream_id p.expected_version (w.format_time now) 0 p.events
            (first_pass p.stream_id c))
          _ h₁ in
      let (d, stored, h₃) = bind-ok (write_state w p (w.format_time now) l.db) _ h₂ in
      let final : d ≡ db' = cc in
      record {
        claimed = c;
        same_events = (apply_ops-SameLog p.stream_id p.constraints db c claims).events;
        loop = l;
        ran = ran;
        events =
            ap (λ (d : Db). d.events) (sym final)
            ∙ (write_state-SameLog w p (w.format_time now) l.db d stored).events;
      }

  pub IsSound-events : (a b : Db) → b.events ≡ a.events → IsSound w a → IsSound w b
  IsSound-events a b e h t s = rw e (h t s)

  -- Either the append failed and changed nothing, or its transaction committed.
  abbrev pub Settled : Time → AppendParams → Db → Result AppendResult × Db → Type 0
  Settled now p db x =
      ((e : Error) × (x.0 ≡ err e) × (x.1 ≡ db))
      ⊎ ((r : AppendResult) × (x.0 ≡ ok r)
          × (validate p.stream_id ≡ ok tt)
          × (p.events ≢ [])
          × (append_tx w now p db ≡ ok (r, x.1)))

  with_tx-Settled :
      (now : Time) (p : AppendParams) (db : Db)
      → validate p.stream_id ≡ ok tt
      → p.events ≢ []
      → (v : Result (AppendResult × Db)) → append_tx w now p db ≡ v
      → Settled now p db (finish_tx db v)
  with_tx-Settled now p db valid some' (err e) h = inl (e, refl, refl)
  with_tx-Settled now p db valid some' (ok (r, db')) h = inr (r, refl, valid, some', h)

  batch-Settled :
      (now : Time) (p : AppendParams) (db : Db)
      → validate p.stream_id ≡ ok tt
      → (evs : List EventToAppend) → p.events ≡ evs
      → Settled now p db (append_valid w now p evs db)
  unfolding append_valid with_tx
  batch-Settled now p db valid [] h = inl (Error.plain, refl, refl)
  batch-Settled now p db valid (ev ∷ evs) h =
      with_tx-Settled now p db valid (λ e. cc) (append_tx w now p db) refl

  checked-Settled :
      (now : Time) (p : AppendParams) (db : Db) (v : Result (Unit {0}))
      → validate p.stream_id ≡ v
      → Settled now p db (append_checked w now p v db)
  checked-Settled now p db (err e) h = inl (e, refl, refl)
  checked-Settled now p db (ok u) h = batch-Settled now p db h p.events refl

  pub append-Settled :
      (now : Time) (p : AppendParams) (db : Db) → Settled now p db (append w now p db)
  unfolding append
  append-Settled now p db = checked-Settled now p db (validate p.stream_id) refl

  module _ (rt : RoundTrips w) (d : HasDigests w) where
    start-LoopOk :
        (p : AppendParams) (db c : Db)
        → IsSound w db
        → c.events ≡ db.events
        → LoopOk w rt p.stream_id (stream_length p.stream_id db) (first_pass p.stream_id c)
    start-LoopOk p db c h e = record {
      sound = IsSound-events db c e h;
      prev =
          last_stream_hash-last w d p.stream_id.tenant (canonical p.stream_id) c
            (IsSound-events db c e h);
      count = rw e refl;
    }

    pub Committed-count :
        (now : Time) (p : AppendParams) (db db' : Db)
        → IsSound w db
        → validate p.stream_id ≡ ok tt
        → p.expected_version ≡ stream_length p.stream_id db
        → p.expected_version + length p.events < 2 ^ 63
        → Committed now p db db'
        → IsSound w db' × (stream_length p.stream_id db' ≡ p.expected_version + length p.events)
    Committed-count now p db db' h valid at bound c =
        let begin = start-LoopOk p db c.claimed h c.same_events in
        let there : stream_length p.stream_id db ≡ p.expected_version + 0 = omega arith in
        let end' =
          loop-LoopOk w rt p.stream_id p.expected_version 0 now p.events
            (first_pass p.stream_id c.claimed) c.loop valid
            (subst (λ n. LoopOk w rt p.stream_id n (first_pass p.stream_id c.claimed)) there begin)
            (omega arith) c.ran in
        let n : stream_length p.stream_id db' ≡ stream_length p.stream_id c.loop.db =
          rw c.events refl in
        (IsSound-events c.loop.db db' c.events end'.sound, omega (arith, end'.count))

    stale_events :
        (now : Time) (p : AppendParams) (db db' : Db) (evs : List EventToAppend)
        → p.events ≡ evs
        → evs ≢ []
        → IsSound w db
        → p.expected_version < stream_length p.stream_id db
        → p.expected_version < 2 ^ 62
        → ¬ Committed now p db db'
    unfolding append_events
    stale_events now p db db' [] e some' h stale bound c = absurd (some' refl)
    stale_events now p db db' (ev ∷ evs) e some' h stale bound c =
        let begin = start-LoopOk p db c.claimed h c.same_events in
        let ran = rw e at c.ran in
        let (m, one, rest) =
          bind-ok
            (append_event w p.stream_id p.expected_version (w.format_time now) 0 ev
              (first_pass p.stream_id c.claimed))
            _ ran in
        append_event-stale w rt p.stream_id p.expected_version 0 (w.format_time now) ev
          (first_pass p.stream_id c.claimed) m begin.sound (omega (arith, begin.count))
          (omega arith) one

    -- An append that expects a version which its stream has passed fails and changes nothing.
    pub append-stale :
        (now : Time) (p : AppendParams) (db : Db)
        → IsSound w db
        → p.expected_version < stream_length p.stream_id db
        → p.expected_version < 2 ^ 62
        → (e : Error) × ((append w now p db).0 ≡ err e) × ((append w now p db).1 ≡ db)
    append-stale now p db h stale bound = elim (append-Settled now p db) [
      | inl failed ↦ failed
      | inr (r, _, _, some', tx) ↦ absurd (
          stale_events now p db (append w now p db).1 p.events refl some' h stale bound
            (append_tx-Committed now p db (append w now p db).1 r tx))
    ]
