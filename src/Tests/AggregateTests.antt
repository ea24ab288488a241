-- ===== src/Tests/AggregateTests.antt =====
-- aggregate/: an aggregate that counts its events, with a cached row after the first one.
use eventstore.Base.{
  ℕ, suc, ◌≡◌, refl, none, some, Text, text, List, [], ◌∷◌, false, ok, err, length, drop,
  where_rows,
}
use eventstore.Es.Error.{Result, plain}
use eventstore.Es.Envelope.{Envelope, StateCacheRow, AppendResult}
use eventstore.Aggregate.Runtime.{
  replay_base, Store, StateCodec, Runtime, Loaded, replay, replay_event, decrypt_event, unborn,
  load,
}
use eventstore.Aggregate.Handle.{
  handle, prepare, prepare_events, encode_events, encode_event, encrypt_event,
}
use eventstore.Aggregate.Cache.{RowCoherent, Same, load-cached}
use eventstore.Es.StreamId.{validate}
use eventstore.Sqlite.Adapter.{sqlite_store, handle-unchanged, get_state}
use eventstore.Sqlite.Read.{read_stream}
use eventstore.Tests.ToyWire.{toy}
use eventstore.Sqlite.Tables.{Db, empty_db, find_state, stored_state, read_stream_from_version}
use eventstore.Tests.EsTests.{user_42, first}

abbrev counter : StateCodec ℕ
counter = record { encode = λ n. ok (some (n ∷ []), []); decode = λ t. ok (length t) }

abbrev counting : Runtime ℕ Text Text
counting = record {
  decider = record {
    initial = 0;
    decide = λ s c. ok (c ∷ [], []);
    evolve = λ s e. suc s;
    is_terminal = none;
  };
  codec = record {
    encode = λ e. ok (record { payload = e; type_url = []; schema_version = 1 });
    decode = λ type_url version payload. ok payload;
  };
  state_codec = some counter;
  schema_version = 0;
  shredder = none;
}

abbrev second_event : Envelope
second_event = record first { version = 2 }

abbrev row : StateCacheRow
row = record {
  tenant_id = text "acme";
  stream_id = text "user:u-42";
  type_url = [];
  state = 7 ∷ [];
  version = 1;
  terminal = false;
  state_schema_version = 1;
  updated_at = 3;
}

abbrev two : List Envelope
two = first ∷ second_event ∷ []

abbrev cached : Store (List Envelope)
cached = record {
  append = λ now p d. (err plain, d);
  read_stream = λ sid from d. ok (drop from d);
  get_state = λ t s d. ok row;
}

abbrev full : Loaded ℕ
full = record { state = 2; version = 2; redacted = [] }

two_replayed : replay counting user_42 (unborn counting) two ≡ ok full
unfolding replay replay_event decrypt_event
two_replayed = refl

row_coherent :
    (sc : StateCodec ℕ)
    → counting.state_codec ≡ some sc
    → RowCoherent counting sc user_42 two (ok row)
unfolding replay replay_event decrypt_event
row_coherent sc e v s h =
    let same : counter ≡ sc = cc e in
    let h' = rw (← same) at h in
    (record { state = 1; version = 1; redacted = [] }, refl, (cc h', refl))

load-cached_example :
    (l : Loaded ℕ) × (load counting cached user_42 two ≡ ok l) × Same counting full l
load-cached_example =
    load-cached counting user_42 two cached two full (λ from. refl) row_coherent two_replayed

-- The key that an event is encrypted with is added, for its subject, whatever happens later.
abbrev with_key : Text → Text → Text → List Text → Result Text × List Text
with_key tenant subject evt k = (ok evt, subject ∷ k)

-- Events with a subject, and a codec that writes none of them.
abbrev unwritten : Runtime ℕ Text Text
unwritten = record counting {
  codec = record { encode = λ e. err plain; decode = λ type_url version payload. ok payload };
  shredder =
      some (record { subject = λ e. some (text "ada"); decrypt = λ tenant subject e. ok (e, []) });
}

abbrev handled : Result AppendResult × (Db × List Text)
handled =
    handle unwritten with_key (sqlite_store toy) 3 [] (λ i. i ∷ []) user_42 (text "c") [] empty_db
      []

not_encoded : handled.0 ≡ err plain
unfolding handle prepare load replay_base replay get_state find_state stored_state read_stream
    validate read_stream_from_version where_rows prepare_events encode_events encode_event
    encrypt_event
not_encoded = refl

-- The key stays.
key_added : handled.1.1 ≡ text "ada" ∷ []
unfolding handle prepare load replay_base replay get_state find_state stored_state read_stream
    validate read_stream_from_version where_rows prepare_events encode_events encode_event
    encrypt_event
key_added = refl

handle-unchanged_example : handled.1.0 ≡ empty_db
handle-unchanged_example =
    handle-unchanged toy unwritten with_key 3 [] (λ i. i ∷ []) user_42 (text "c") [] empty_db []
      plain not_encoded
