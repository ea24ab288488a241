-- ===== src/Tests/SqliteTests.antt =====
-- adapters/storage/sqlite: appends to a small store.
use eventstore.Base.{
  ℕ, ◌≤◌, any_row, ◌≡◌, refl, Text, text, ok, err, List, [], ◌∷◌, none, false, arith, length,
  where_rows, text_eq,
}
use eventstore.Es.Error.{Error}
use eventstore.Es.StreamId.{validate, canonical}
use eventstore.Es.Envelope.{Envelope, EventToAppend, AppendParams, ConstraintOp, claim, release}
use eventstore.Es.Chain.{verify_stream_chain, compute_chain_hash, canonical_envelope_bytes}
use eventstore.Sqlite.Tables.{
  Db, empty_db, insert_event, insert_outbox, last_stream_hash, claim_unique, release_unique,
}
use eventstore.Sqlite.Append.{
  append, append_tx, append_events, append_event, apply_op, apply_ops, write_state, chain_env,
  event_row,
}
use eventstore.Sqlite.Append.Laws.{stream_length}
use eventstore.Sqlite.Append.Streams.{History, start, after, History-verifies, append-race}
use eventstore.Sqlite.Append.Mirror.{Appends, none_yet, append_more, IsMirrored, Appends-IsMirrored}
use eventstore.Sqlite.Append.Claims.{append-claim_race}
use eventstore.Sqlite.Read.{read_stream}
use eventstore.Tests.ToyWire.{toy, service, toy-RoundTrips, toy-HasDigests, write_actor}
use eventstore.Tests.EsTests.{user_42, user_42-valid}

abbrev event : Text → Text → EventToAppend
event id payload = record {
  event_id = id;
  type_url = text "t";
  schema_version = 1;
  occurred_at = 5;
  correlation_id = [];
  causation_id = [];
  command_id = [];
  actor = service (text "svc");
  payload = payload;
  payload_json = [];
  key_refs = [];
}

abbrev batch : ℕ → List EventToAppend → AppendParams
batch expected events = record {
  stream_id = user_42;
  expected_version = expected;
  events = events;
  constraints = [];
  new_state = none;
  state_type_url = [];
  state_schema_version = 0;
  terminal = false;
}

abbrev pub opening : AppendParams
opening = batch 0 (event (1 ∷ []) (text "a") ∷ event (2 ∷ []) (text "b") ∷ [])

abbrev rival : AppendParams
rival = batch 0 (event (3 ∷ []) (text "c") ∷ [])

abbrev pub opened : Db
opened = (append toy 100 opening empty_db).1

opening_result :
    (append toy 100 opening empty_db).0
    ≡ ok (record {
      start_version = 1;
      end_version = 2;
      start_global_position = 1;
      end_global_position = 2;
      recorded_at = 100;
    })
unfolding append append_tx append_events append_event apply_ops write_state insert_event
    insert_outbox last_stream_hash compute_chain_hash canonical_envelope_bytes chain_env event_row
    write_actor validate where_rows any_row canonical
opening_result = refl

opened-History : History toy toy-RoundTrips toy-HasDigests opened
unfolding where_rows
opened-History = after 100 opening start (omega arith) (omega arith)

History-verifies_example :
    (es : List Envelope) × (read_stream toy user_42 0 opened ≡ ok es)
    × (verify_stream_chain toy (read_stream toy user_42 0 opened) ≡ ok tt)
    × (length es ≡ stream_length user_42 opened)
History-verifies_example =
    History-verifies toy toy-RoundTrips toy-HasDigests user_42 opened opened-History user_42-valid

empty_length : 0 ≤ stream_length user_42 empty_db
empty_length = omega arith

append-race_example :
    (e : Error) × ((append toy 101 rival opened).0 ≡ err e)
    × ((append toy 101 rival opened).1 ≡ opened)
append-race_example =
    append-race toy toy-RoundTrips toy-HasDigests 100 101 opening rival empty_db
      (record {
        start_version = 1;
        end_version = 2;
        start_global_position = 1;
        end_global_position = 2;
        recorded_at = 100;
      })
      start empty_length (omega arith) refl refl opening_result

opened-Appends : Appends toy opened
opened-Appends = append_more 100 opening none_yet

Appends-IsMirrored_example : IsMirrored opened
Appends-IsMirrored_example = Appends-IsMirrored toy opened opened-Appends

-- Claims of one user name by two streams.
abbrev ada : ConstraintOp
ada = claim (text "name") (text "ada")

abbrev named : AppendParams
named = record opening { constraints = release (text "name") (text "ada") ∷ ada ∷ [] }

abbrev second_named : AppendParams
second_named = record (batch 0 (event (4 ∷ []) (text "d") ∷ [])) {
  stream_id = record user_42 { id = text "u-43" };
  constraints = claim (text "name") (text "bob") ∷ release (text "name") (text "eve") ∷ ada ∷ [];
}

named_result :
    (append toy 100 named empty_db).0
    ≡ ok (record {
      start_version = 1;
      end_version = 2;
      start_global_position = 1;
      end_global_position = 2;
      recorded_at = 100;
    })
unfolding append append_tx append_events append_event apply_ops apply_op claim_unique release_unique
    write_state insert_event insert_outbox last_stream_hash compute_chain_hash
    canonical_envelope_bytes chain_env event_row write_actor validate where_rows any_row canonical
named_result = refl

append-claim_race_example :
    (e : Error) × ((append toy 101 second_named (append toy 100 named empty_db).1).0 ≡ err e)
    × ((append toy 101 second_named (append toy 100 named empty_db).1).1
        ≡ (append toy 100 named empty_db).1)
unfolding text_eq
append-claim_race_example =
    append-claim_race toy (text "name") (text "ada") (release (text "name") (text "ada") ∷ []) []
      (claim (text "name") (text "bob") ∷ release (text "name") (text "eve") ∷ []) [] 100 101 named
      second_named empty_db
      (record {
        start_version = 1;
        end_version = 2;
        start_global_position = 1;
        end_global_position = 2;
        recorded_at = 100;
      })
      refl refl tt (tt, (refl, tt)) refl named_result
