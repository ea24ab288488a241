-- ===== src/Tests/ProjectionTests.antt =====
-- projection/: a read model that refuses the event with version 2.
use eventstore.Base.{
  ℕ, suc, ◌+◌, ◌≡◌, refl, ap, true, Option, none, some, Text, text, List, [], ◌∷◌, ok, err, ◌==◌,
  if◌then◌else◌, any_row, text_eq, text_eq_refl,
}
use eventstore.Es.Error.{Error, plain}
use eventstore.Es.Envelope.{Envelope}
use eventstore.Projection.Runtime.{
  Projector, Surroundings, handle_events, opening_pass, in_shard, refuse,
}
use eventstore.Es.StreamId.{canonical}
use eventstore.Outbox.Backoff.{stream_shard, fnv_1a}
use eventstore.Outbox.Drain.{quarantine_key}
use eventstore.Projection.Batch.{Split, handle_events-Split}
use eventstore.Projection.Dedup.{DedupStore, Remembers, with_dedup, with_dedup-twice}
use eventstore.Tests.EsTests.{first, user_42}

abbrev later : Envelope
later = record first { version = 2; global_position = 10 }

-- An event of the other shard.
abbrev elsewhere : Envelope
elsewhere = record first { stream_id = record user_42 { id = text "u-43" }; global_position = 11 }

-- An event that the dead-letter store refuses too.
abbrev poison : Envelope
poison = record first { version = 3; global_position = 12 }

abbrev page : List Envelope
page = first ∷ later ∷ elsewhere ∷ poison ∷ []

abbrev refuse_second : Envelope → ℕ → Option Error × ℕ
refuse_second env w = if env.version == 1 then (none, suc w) else (some plain, w)

abbrev around : Surroundings ℕ
around = record {
  read_all = λ from n w. ok page;
  read_all_for_tenant = λ t from n w. ok page;
  load = λ name t w. ok 0;
  save = λ name t p w. ok w;
  handler = refuse_second;
  dead_letters = some (λ name env e w. if env.version == 2 then ok (w + 100) else err plain);
  locker = none;
}

abbrev projector : Projector
projector = record {
  name = text "p";
  tenant = [];
  batch_size = 0;
  lock_key = [];
  shard = 0;
  total_shards = 2;
  dlq_on_failure = true;
}

handle_events-Split_example :
    Split projector around page
      (opening_pass projector around 0)
      (handle_events projector around page (opening_pass projector around 0))
handle_events-Split_example =
    handle_events-Split projector around page (opening_pass projector around 0)

page_run :
    handle_events projector around page (opening_pass projector around 0)
    ≡ (some plain, record { last = 11; successes = 1; world = 101 })
unfolding handle_events refuse in_shard stream_shard fnv_1a quarantine_key canonical
page_run = refl

-- The ids that were processed.
abbrev ledger : DedupStore (List Text)
ledger = record {
  has_processed_event = λ name t id w. ok (any_row (text_eq id) w);
  mark_processed_event = λ name t id w. ok (id ∷ w);
}

abbrev accept : Envelope → List Text → Option Error × List Text
accept env w = (none, w)

seen_first : (id : Text) (w : List Text) → any_row (text_eq id) (id ∷ w) ≡ true
unfolding any_row
seen_first id w = rw (text_eq_refl id) refl

ledger_remembers : Remembers accept ledger (text "p")
ledger_remembers t id w w' h =
    let added : id ∷ w ≡ w' = cc h in rw (← added) (ap ok (seen_first id w))

first_call : with_dedup accept ledger (text "p") first [] ≡ (none, (7 ∷ []) ∷ [])
unfolding with_dedup any_row text_eq
first_call = refl

with_dedup-twice_example :
    with_dedup accept ledger (text "p") first ((7 ∷ []) ∷ []) ≡ (none, (7 ∷ []) ∷ [])
with_dedup-twice_example =
    with_dedup-twice accept ledger (text "p") ledger_remembers first [] ((7 ∷ []) ∷ []) first_call
