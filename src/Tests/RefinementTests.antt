-- ===== src/Tests/RefinementTests.antt =====
-- The sqlite adapter as an event log, and an aggregate over it that counts its events.
use eventstore.Base.{
  ℕ, suc, ◌+◌, ◌≡◌, refl, ap, sym, subst, where_rows, any_row, none, some, Text, text, List, [],
  ◌∷◌, ok, err, arith, length, true, ◌-◌, ltb, if◌then◌else◌, Option,
}
use eventstore.Es.Error.{Result, plain}
use eventstore.Es.Envelope.{Uuid, ConstraintOp, AppendResult}
use eventstore.Es.StreamId.{validate, canonical}
use eventstore.Es.Chain.{compute_chain_hash, canonical_envelope_bytes}
use eventstore.Sqlite.Tables.{
  empty_db, find_state, stored_state, upsert_state_cache, read_stream_from_version, insert_event,
  insert_outbox, last_stream_hash,
}
use eventstore.Sqlite.Append.{
  append, append_tx, append_events, append_event, apply_ops, write_state, chain_env, event_row,
}
use eventstore.Sqlite.Append.Streams.{start}
use eventstore.Sqlite.Adapter.{sqlite_store, get_state, state_row}
use eventstore.Sqlite.Read.{read_stream}
use eventstore.Sqlite.EventLog.{empty_log}
use eventstore.Sqlite.EventLog.Refines.{Implements, append-Implements, start-Represents}
use eventstore.Sqlite.Aggregates.Encoded.{ReadsBack}
use eventstore.Sqlite.Aggregates.Replay.{fold_events}
use eventstore.Sqlite.Aggregates.Cached.{Tracks}
use eventstore.Sqlite.Aggregates.Continues.{Continues, Fits}
use eventstore.Sqlite.Aggregates.LoadHandle.{handle-Continues, load-handle}
use eventstore.Aggregate.Runtime.{
  Runtime, EncodedEvent, StateCodec, HandleOption, with_actor, Loaded, unborn, load, replay_base,
  replay, decrypt_event, apply_options, apply_option,
}
use eventstore.Aggregate.Handle.{
  handle, prepare, prepare_events, evolve_all, encode_events, encode_event, encrypt_event,
  with_state,
}
use eventstore.Tests.ToyWire.{
  toy, toy-RoundTrips, toy-HasDigests, service, write_actor, is_digit, to_jsonb, from_jsonb,
}
use eventstore.Tests.SqliteTests.{opening}
use eventstore.Tests.EsTests.{user_42, user_42-valid}

append-Implements_example :
    Implements toy toy-RoundTrips toy-HasDigests 100 opening empty_log empty_db
      (append toy 100 opening empty_db).1
append-Implements_example =
    append-Implements toy toy-RoundTrips toy-HasDigests 100 opening empty_db empty_log start
      (start-Represents toy toy-RoundTrips toy-HasDigests) (omega arith) (omega arith)

-- The protojson text of a number below 10.
unfoldable write_tally : ℕ → Result (Option Text × Text)
write_tally n = if ltb n 10 then ok (some ((48 + n) ∷ []), []) else err plain

unfoldable read_tally : Text → Result ℕ
read_tally (c ∷ []) = if is_digit c then ok (c - 48) else err plain
read_tally _ = err plain

abbrev tally : StateCodec ℕ
unfolding write_tally read_tally
tally = record { encode = write_tally; decode = read_tally }

abbrev tallying : Runtime ℕ Text Text
tallying = record {
  decider = record {
    initial = 0;
    decide = λ s c. ok (c ∷ c ∷ [], []);
    evolve = λ s e. suc s;
    is_terminal = none;
  };
  codec = record {
    encode = λ e. ok (record { payload = e; type_url = []; schema_version = 1 });
    decode = λ type_url version payload. ok payload;
  };
  state_codec = some tally;
  schema_version = 0;
  shredder = none;
}

-- Without a Shredder nothing is encrypted.
abbrev untouched : Text → Text → Text → Unit {0} → Result Text × Unit {0}
untouched tenant subject evt k = (ok evt, k)

abbrev Back : ℕ → Option Text × Text → Type 0
Back s x =
    (bytes : Text) × (x.0 ≡ some bytes)
    × ((binary : Text)
        → to_jsonb bytes ≡ ok binary
        → (t : Text) × (from_jsonb binary ≡ ok t) × (read_tally t ≡ ok s))

tally-Back : (s : ℕ) (x : Option Text × Text) → write_tally s ≡ ok x → Back s x
unfolding write_tally read_tally to_jsonb from_jsonb
tally-Back s x h =
    let small : ltb s 10 ≡ true = ground arith in
    let same : (some ((48 + s) ∷ []), []) ≡ x = ground arith in
    subst (Back s) same (
      (48 + s) ∷ [],
      refl,
      λ binary stored.
          let as_binary : 19 ∷ (48 + s) ∷ [] ≡ binary = ground arith in
          subst (λ b. (t : Text) × (from_jsonb b ≡ ok t) × (read_tally t ≡ ok s)) as_binary
            ((48 + s) ∷ [], refl, ground arith),
    )

tallying-ReadsBack : ReadsBack tallying untouched toy
unfolding read_tally write_tally encrypt_event decrypt_event to_jsonb from_jsonb
tallying-ReadsBack = record {
  event_back = λ e x h.
      let same : record { payload = e; type_url = []; schema_version = 1 } ≡ x = cc in
      ap (λ (z : EncodedEvent). ok z.payload) (sym same);
  pii_back = λ sid e x k h. ([], cc);
  state_back = λ sc s x at h.
      let same : tally ≡ sc = cc in
      subst
        (λ (z : StateCodec ℕ).
          z.encode s ≡ ok x
          → (bytes : Text) × (x.0 ≡ some bytes)
            × ((binary : Text)
                → toy.jsonb bytes ≡ ok binary
                → (t : Text) × (toy.json binary ≡ ok t) × (z.decode t ≡ ok s)))
        same (tally-Back s x) h;
}

unborn-Tracks : Tracks tallying toy user_42 empty_db [] (unborn tallying)
unfolding fold_events get_state state_row find_state stored_state
unborn-Tracks = record { folds = refl; count = refl; cached = λ sc e. tt }

tallying-Fits :
    Fits tallying untouched toy tallying-ReadsBack toy-RoundTrips toy-HasDigests
      (text "c")
      (unborn tallying)
tallying-Fits evts ops h =
    let same : text "c" ∷ text "c" ∷ [] ≡ evts = cc in
    let two : 2 ≡ length evts = ap length same in omega arith

abbrev as_service : List HandleOption
as_service = with_actor (service (text "svc")) ∷ []

abbrev ids : ℕ → Uuid
ids i = i ∷ []

abbrev two_appended : AppendResult
two_appended = record {
  start_version = 1;
  end_version = 2;
  start_global_position = 1;
  end_global_position = 2;
  recorded_at = 100;
}

handled :
    (handle tallying untouched
      (sqlite_store toy)
      100
      (9 ∷ [])
      ids
      user_42
      (text "c")
      as_service
      empty_db
      tt).0
    ≡ ok two_appended
unfolding handle prepare load replay_base replay prepare_events encode_events encode_event
    encrypt_event with_state evolve_all apply_options apply_option write_tally tally to_jsonb
    get_state state_row read_stream append append_tx append_events append_event apply_ops
    write_state insert_event insert_outbox last_stream_hash compute_chain_hash
    canonical_envelope_bytes chain_env event_row write_actor validate canonical
    read_stream_from_version where_rows any_row find_state stored_state upsert_state_cache
handled = refl

handle-Continues_example :
    Continues tallying untouched toy tallying-ReadsBack toy-RoundTrips toy-HasDigests user_42
      (text "c")
      (unborn tallying)
      (handle tallying untouched
        (sqlite_store toy)
        100
        (9 ∷ [])
        ids
        user_42
        (text "c")
        as_service
        empty_db
        tt).1.0
handle-Continues_example =
    handle-Continues tallying untouched toy tallying-ReadsBack toy-RoundTrips toy-HasDigests 100
      (9 ∷ []) ids user_42 (text "c") as_service empty_db tt empty_log (unborn tallying)
      two_appended start (start-Represents toy toy-RoundTrips toy-HasDigests) user_42-valid
      unborn-Tracks tallying-Fits handled

load-handle_example :
    (evts : List Text) × (ops : List ConstraintOp) × (tallying.decider.decide 0 (text "c")
      ≡ ok (evts, ops))
    × (l : Loaded ℕ) × (load tallying
          (sqlite_store toy)
          user_42
          (handle tallying untouched
            (sqlite_store toy)
            100
            (9 ∷ [])
            ids
            user_42
            (text "c")
            as_service
            empty_db
            tt).1.0
        ≡ ok l)
    × (l.state ≡ evolve_all tallying 0 evts)
    × (l.version ≡ 0 + length evts)
load-handle_example =
    load-handle tallying untouched toy tallying-ReadsBack toy-RoundTrips toy-HasDigests 100 (9 ∷ [])
      ids user_42 (text "c") as_service empty_db tt empty_log (unborn tallying) two_appended start
      (start-Represents toy toy-RoundTrips toy-HasDigests) user_42-valid unborn-Tracks tallying-Fits
      handled
