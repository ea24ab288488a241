-- ===== src/Sqlite/Aggregates/Continues.antt =====
-- What Load finds after a Handle that succeeded (aggregate/runtime.go over the sqlite adapter).
use eventstore.Base.{
  ℕ, zero, suc, ◌+◌, ◌^◌, ◌≤◌, ◌<◌, ◌≡◌, refl, sym, ap, ◌∙◌, subst, inl, inr, some, List, [], ◌∷◌,
  ◌++◌, Text, ok, err, arith, length, take, length-append,
}
use eventstore.Es.Error.{Result}
use eventstore.Es.StreamId.{StreamId, validate, canonical}
use eventstore.Es.Envelope.{
  AppendParams, AppendResult, ConstraintOp, EventToAppend, StateCacheRow, Time, Uuid,
}
use eventstore.Es.Wire.{Wire, RoundTrips, HasDigests}
use eventstore.Sqlite.Tables.{Db}
use eventstore.Sqlite.Adapter.{get_state}
use eventstore.Sqlite.EventLog.{Recorded, Log, Represents, log_append, recorded}
use eventstore.Sqlite.EventLog.Refines.{append-Implements, log_append_self, length-log}
use eventstore.Sqlite.Append.{append}
use eventstore.Sqlite.Append.Laws.{stream_length}
use eventstore.Sqlite.Append.Streams.{History, after, History-IsSound}
use eventstore.Aggregate.Runtime.{Runtime, Loaded, StateCodec, HandleConfig, unborn}
use eventstore.Aggregate.Handle.{evolve_all}
use eventstore.Sqlite.Aggregates.Replay.{fold_events, fold_events-append}
use eventstore.Sqlite.Aggregates.Encoded.{ReadsBack, encode_events-fold_events}
use eventstore.Sqlite.Aggregates.Cached.{Tracks, CacheOk, append-write_state, write_state-Holds}
use eventstore.Sqlite.Aggregates.Handled.{Carries, Stated}

length-recorded :
    (now : Time) (v : ℕ) (evs : List EventToAppend) → length (recorded now v evs) ≡ length evs
unfolding recorded
length-recorded now v [] = refl
length-recorded now v (ev ∷ evs) = ap suc (length-recorded now (suc v) evs)

take-all : (n : ℕ) (xs : List Recorded) → length xs ≡ n → take n xs ≡ xs
take-all zero [] h = refl
take-all zero (x ∷ xs) h = absurd (omega arith)
take-all (suc n) [] h = refl
take-all (suc n) (x ∷ xs) h = ap (◌∷◌ x) (take-all n xs (omega arith))

module _ {S C E : Type 0} (rt : Runtime S C E) (w : Wire) where
  -- A row with the state after all events of the stream.
  CacheOk-whole :
      (sid : StreamId) (sc : StateCodec S) (xs : List Recorded) (m : Loaded S) (bytes : Text)
      (r : Result StateCacheRow) (row : StateCacheRow)
      → r ≡ ok row
      → row.state ≡ bytes
      → row.version ≡ length xs
      → fold_events rt sid (unborn rt) xs ≡ ok m
      → m.version ≡ length xs
      → sc.decode bytes ≡ ok m.state
      → CacheOk rt w sid sc xs r
  CacheOk-whole sid sc xs m bytes (err e) row h st v f n d = tt
  CacheOk-whole sid sc xs m bytes (ok row') row h st v f n d = λ schema s dec.
      let same : row' ≡ row = cc in
      let at : row'.version ≡ length xs = ap (λ (z : StateCacheRow). z.version) same ∙ v in
      let bs : row'.state ≡ bytes = ap (λ (z : StateCacheRow). z.state) same ∙ st in
      let found : m.state ≡ s = cc (ap sc.decode bs, d, dec) in
      (
        m,
        ap (fold_events rt sid (unborn rt)) (take-all row'.version xs (sym at)) ∙ f,
        (found, n ∙ sym at),
      )

module _ {S C E K : Type 0} (rt : Runtime S C E) (encrypt : Text → Text → E → K → Result E × K)
    (w : Wire) (back : ReadsBack rt encrypt w) (trips : RoundTrips w) (digests : HasDigests w) where
  -- The tables after a Handle: the events that the decider chose for the tracked state are at the
  -- end of the stream, and lead to the state that evolving by them gives.
  pub record Continues (sid : StreamId) (cmd : C) (l : Loaded S) (db : Db) : Type 0 where
    pub evts : List E
    pub ops : List ConstraintOp
    pub decided : rt.decider.decide l.state cmd ≡ ok (evts, ops)
    pub history : History w trips digests db
    pub log : Log
    pub represents : Represents w db log
    pub final : Loaded S
    pub tracks : Tracks rt w sid db (log sid) final
    pub evolved : final.state ≡ evolve_all rt l.state evts
    pub counted : final.version ≡ l.version + length evts

  -- The new versions fit into the table.
  abbrev pub Fits : C → Loaded S → Type 0
  Fits cmd l =
      (evts : List E) (ops : List ConstraintOp)
      → rt.decider.decide l.state cmd ≡ ok (evts, ops)
      → l.version + length evts < 2 ^ 62

  -- The cached row that an append has written.
  new_cached :
      (now : Time) (p : AppendParams) (db : Db) (r : AppendResult) (xs : List Recorded)
      (m : Loaded S) (state : S)
      → (append w now p db).0 ≡ ok r
      → p.expected_version + length p.events ≡ length xs
      → fold_events rt p.stream_id (unborn rt) xs ≡ ok m
      → m.version ≡ length xs
      → m.state ≡ state
      → Stated rt state p.new_state rt.state_codec
      → (sc : StateCodec S) → rt.state_codec ≡ some sc
      → CacheOk rt w p.stream_id sc xs
          (get_state w p.stream_id.tenant (canonical p.stream_id) (append w now p db).1)
  new_cached now p db r xs m state done len f n st stated sc e =
      let (bytes, wrote, kept) = subst (Stated rt state p.new_state) e stated in
      let (given, filled, reads) = back.state_back sc state bytes e wrote in
      let (x, written) = append-write_state w now p db r done in
      let (binary, stored, holds) =
        write_state-Holds w trips now p given x (append w now p db).1 (kept ∙ filled) written in
      let (t, text_of, decoded) = reads binary stored in
      let (row, found, state_at, at) = holds t text_of in
      CacheOk-whole rt w p.stream_id sc xs m t
        (get_state w p.stream_id.tenant (canonical p.stream_id) (append w now p db).1) row found
        state_at (at ∙ len) f n (decoded ∙ ap ok (sym st))

  appended-Continues :
      (now : Time) (cfg : HandleConfig) (fresh : ℕ → Uuid) (cmd : C) (p : AppendParams) (db : Db)
      (log : Log) (l : Loaded S) (r : AppendResult) (evts : List E) (ops : List ConstraintOp)
      (k : K)
      → History w trips digests db
      → Represents w db log
      → validate p.stream_id ≡ ok tt
      → Tracks rt w p.stream_id db (log p.stream_id) l
      → rt.decider.decide l.state cmd ≡ ok (evts, ops)
      → l.version + length evts < 2 ^ 62
      → p.expected_version ≡ l.version
      → Carries rt encrypt p.stream_id cfg fresh k l evts p
      → (append w now p db).0 ≡ ok r
      → Continues p.stream_id cmd l (append w now p db).1
  appended-Continues now cfg fresh cmd p db log l r evts ops k h rep valid t dec fits at c done =
      let sid = p.stream_id in
      let sound = History-IsSound w trips digests h in
      let (m, folded, state, version, len) =
        encode_events-fold_events rt encrypt w back sid cfg now fresh 0 evts p.events l
          p.expected_version k (sym at) c.written in
      let long = length-log w trips digests db log sid sound rep valid in
      let reached : p.expected_version ≤ stream_length sid db = omega (arith, t.count) in
      let bound : p.expected_version + length p.events < 2 ^ 62 = omega arith in
      let grown : log_append now p log sid ≡ log sid ++ recorded now p.expected_version p.events =
        log_append_self w trips digests now p log in
      let all : fold_events rt sid (unborn rt) (log_append now p log sid) ≡ ok m =
        ap (fold_events rt sid (unborn rt)) grown
        ∙ fold_events-append rt sid (unborn rt) l (log sid)
            (recorded now p.expected_version p.events) t.folds
        ∙ folded in
      let total : m.version ≡ length (log_append now p log sid) = omega (
        arith,
        ap length grown,
        length-append (log sid) (recorded now p.expected_version p.events),
        length-recorded now p.expected_version p.events,
        t.count,
      ) in
      elim (append-Implements w trips digests now p db log h rep reached bound) [
        | inl (e, failed, _) ↦ absurd (ground arith)
        | inr (r', _, _, rep') ↦ record {
          evts = evts;
          ops = ops;
          decided = dec;
          history = after now p h reached bound;
          log = log_append now p log;
          represents = rep';
          final = m;
          tracks = record {
            folds = all;
            count = total;
            cached =
                new_cached now p db r (log_append now p log sid) m (evolve_all rt l.state evts) done
                  (omega arith) all total state c.codec;
          };
          evolved = state;
          counted = version ∙ ap (λ v. v + length evts) at;
        }
      ]

  -- Moves a statement about the parameters' stream to the stream of the command.
  pub at-stream :
      (now : Time) (cfg : HandleConfig) (fresh : ℕ → Uuid) (cmd : C) (p : AppendParams) (db : Db)
      (log : Log) (l : Loaded S) (r : AppendResult) (evts : List E) (ops : List ConstraintOp)
      (k : K) (sid : StreamId)
      → History w trips digests db
      → Represents w db log
      → rt.decider.decide l.state cmd ≡ ok (evts, ops)
      → l.version + length evts < 2 ^ 62
      → p.expected_version ≡ l.version
      → (append w now p db).0 ≡ ok r
      → p.stream_id ≡ sid
      → validate sid ≡ ok tt
      → Tracks rt w sid db (log sid) l
      → Carries rt encrypt sid cfg fresh k l evts p
      → Continues sid cmd l (append w now p db).1
  at-stream now cfg fresh cmd p db log l r evts ops k sid h rep dec fits at done e =
      subst
        (λ (x : StreamId).
          validate x ≡ ok tt
          → Tracks rt w x db (log x) l
          → Carries rt encrypt x cfg fresh k l evts p
          → Continues x cmd l (append w now p db).1)
        e
        (λ valid t c.
          appended-Continues now cfg fresh cmd p db log l r evts ops k h rep valid t dec fits at c
            done)
