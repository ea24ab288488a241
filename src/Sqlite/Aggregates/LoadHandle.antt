-- ===== src/Sqlite/Aggregates/LoadHandle.antt =====
-- Handle of aggregate/runtime.go over the sqlite adapter, on every outcome, and the Load after it.
use eventstore.Base.{
  ℕ, ◌+◌, ◌≡◌, refl, sym, ap, ◌∙◌, subst, Option, none, some, List, [], ◌∷◌, Text, ok, err, arith,
  length,
}
use eventstore.Es.Error.{Result}
use eventstore.Es.StreamId.{StreamId, validate}
use eventstore.Es.Envelope.{AppendParams, AppendResult, ConstraintOp, Time, Uuid}
use eventstore.Es.Wire.{Wire, RoundTrips, HasDigests}
use eventstore.Sqlite.Tables.{Db}
use eventstore.Sqlite.Adapter.{sqlite_store}
use eventstore.Sqlite.EventLog.{Log, Represents}
use eventstore.Sqlite.Append.Streams.{History, History-IsSound}
use eventstore.Aggregate.Runtime.{
  Runtime, Loaded, HandleConfig, HandleOption, load, apply_options, default_handle_config,
}
use eventstore.Aggregate.Handle.{prepare, handle, submit, evolve_all}
use eventstore.Aggregate.Cache.{Same}
use eventstore.Sqlite.Aggregates.Encoded.{ReadsBack}
use eventstore.Sqlite.Aggregates.Cached.{Tracks, load-Tracks}
use eventstore.Sqlite.Aggregates.Handled.{Carries, Decided, Stated, prepare-Decided}
use eventstore.Sqlite.Aggregates.Continues.{Continues, Fits, at-stream}

module _ {S C E : Type 0} (rt : Runtime S C E) where
  evolve_all-nil : (s : S) (evts : List E) → evts ≡ [] → s ≡ evolve_all rt s evts
  unfolding evolve_all
  evolve_all-nil s [] h = refl
  evolve_all-nil s (evt ∷ evts) h = absurd (ground arith)

  Carries-Same :
      {K : Type 0} (encrypt : Text → Text → E → K → Result E × K) (sid : StreamId)
      (cfg : HandleConfig) (fresh : ℕ → Uuid) (k : K) (l l' : Loaded S) (evts : List E)
      (p : AppendParams)
      → l'.state ≡ l.state
      → l'.version ≡ l.version
      → Carries rt encrypt sid cfg fresh k l' evts p
      → Carries rt encrypt sid cfg fresh k l evts p
  Carries-Same encrypt sid cfg fresh k l l' evts p st at c = record {
    stream = c.stream;
    expected = c.expected ∙ at;
    written = c.written;
    codec = subst (λ s. Stated rt (evolve_all rt s evts) p.new_state rt.state_codec) st c.codec;
  }

module _ {S C E K : Type 0} (rt : Runtime S C E) (encrypt : Text → Text → E → K → Result E × K)
    (w : Wire) (back : ReadsBack rt encrypt w) (trips : RoundTrips w) (digests : HasDigests w)
    (now : Time) (cid : Uuid) (fresh : ℕ → Uuid) (sid : StreamId) (cmd : C)
    (opts : List HandleOption) (db : Db) (k : K) (log : Log) (l : Loaded S) (r : AppendResult)
    (h : History w trips digests db) (rep : Represents w db log) (valid : validate sid ≡ ok tt)
    (t : Tracks rt w sid db (log sid) l) (fits : Fits rt encrypt w back trips digests cmd l) where
  abbrev config : HandleConfig
  config = apply_options (default_handle_config now cid) opts

  -- The same outcome from the state that Load found, which may have met other redactions.
  submitted-Continues :
      (l' : Loaded S) (o : Option AppendParams) (k' : K)
      → l'.state ≡ l.state
      → l'.version ≡ l.version
      → Decided rt encrypt sid config fresh k cmd l' o
      → (submit rt encrypt (sqlite_store w) now db (ok o, k')).0 ≡ ok r
      → Continues rt encrypt w back trips digests sid cmd l
          (submit rt encrypt (sqlite_store w) now db (ok o, k')).1.0
  submitted-Continues l' none k' st at d done =
      let dec : rt.decider.decide l.state cmd ≡ ok (d.evts, d.ops) =
        ap (λ s. rt.decider.decide s cmd) (sym st) ∙ d.decided in
      record {
        evts = d.evts;
        ops = d.ops;
        decided = dec;
        history = h;
        log = log;
        represents = rep;
        final = l;
        tracks = t;
        evolved = evolve_all-nil rt l.state d.evts d.prepared;
        counted = omega (arith, ap length d.prepared);
      }
  submitted-Continues l' (some p) k' st at d done =
      let dec : rt.decider.decide l.state cmd ≡ ok (d.evts, d.ops) =
        ap (λ s. rt.decider.decide s cmd) (sym st) ∙ d.decided in
      at-stream rt encrypt w back trips digests now config fresh cmd p db log l r d.evts d.ops k sid
        h rep dec (fits d.evts d.ops dec) (d.prepared.expected ∙ at) done d.prepared.stream valid t
        (Carries-Same rt encrypt sid config fresh k l l' d.evts p st at d.prepared)

  outcome-Continues :
      (l' : Loaded S) (o : Result (Option AppendParams) × K)
      → load rt (sqlite_store w) sid db ≡ ok l'
      → Same rt l l'
      → prepare rt encrypt (sqlite_store w) sid cmd config fresh db k ≡ o
      → (submit rt encrypt (sqlite_store w) now db o).0 ≡ ok r
      → Continues rt encrypt w back trips digests sid cmd l
          (submit rt encrypt (sqlite_store w) now db o).1.0
  outcome-Continues l' (err e, k') loaded same at done = absurd (ground arith)
  outcome-Continues l' (ok o, k') loaded (st, version) at done =
      submitted-Continues l' o k' (sym st) (sym version)
        (prepare-Decided rt encrypt sid config fresh k (sqlite_store w) cmd db l' o loaded
          (ap (λ (z : Result (Option AppendParams) × K). z.0) at))
        done

  -- With codecs that read back what they wrote, that of states through the JSON functions of SQLite
  -- and never from nil bytes, and keys that decrypt what they encrypted, from a store with a history
  -- of appends that reads as the log says, where the events and the cached row of a valid stream id
  -- lead to the tracked state and the new versions stay below 2 ^ 62, a Handle over the sqlite adapter that succeeded
  -- leaves a store with a history of appends and a log that it reads as, where the events and the
  -- cached row of the stream lead to the tracked state evolved by the events that were decided.
  pub handle-Continues :
      (handle rt encrypt (sqlite_store w) now cid fresh sid cmd opts db k).0 ≡ ok r
      → Continues rt encrypt w back trips digests sid cmd l
          (handle rt encrypt (sqlite_store w) now cid fresh sid cmd opts db k).1.0
  unfolding handle
  handle-Continues done =
      let (l', loaded, same) =
        load-Tracks rt w sid db log l (History-IsSound w trips digests h) rep valid t in
      outcome-Continues l' (prepare rt encrypt (sqlite_store w) sid cmd config fresh db k) loaded
        same refl done

  -- With codecs that read back what they wrote, that of states through the JSON functions of SQLite
  -- and never from nil bytes, and keys that decrypt what they encrypted, from a store with a history
  -- of appends that reads as the log says, where the events and the cached row of a valid stream id
  -- lead to the tracked state and the new versions stay below 2 ^ 62, after a Handle over the sqlite adapter that
  -- succeeded the next Load of that stream succeeds, with the tracked state evolved by the events
  -- that the decider chose for the command and the version raised by their number.
  pub load-handle :
      (handle rt encrypt (sqlite_store w) now cid fresh sid cmd opts db k).0 ≡ ok r
      → (evts : List E) × (ops : List ConstraintOp) × (rt.decider.decide l.state cmd
          ≡ ok (evts, ops))
        × (l'' : Loaded S) × (load rt
              (sqlite_store w)
              sid
              (handle rt encrypt (sqlite_store w) now cid fresh sid cmd opts db k).1.0
            ≡ ok l'')
        × (l''.state ≡ evolve_all rt l.state evts)
        × (l''.version ≡ l.version + length evts)
  load-handle done =
      let c = handle-Continues done in
      let (l'', loaded, (st, version)) =
        load-Tracks rt w sid
          (handle rt encrypt (sqlite_store w) now cid fresh sid cmd opts db k).1.0 c.log c.final
          (History-IsSound w trips digests c.history) c.represents valid c.tracks in
      (c.evts, c.ops, c.decided, l'', loaded, sym st ∙ c.evolved, sym version ∙ c.counted)
