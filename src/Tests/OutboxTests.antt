-- ===== src/Tests/OutboxTests.antt =====
-- outbox/ and the outbox of adapters/storage/sqlite, over the two events of a small store.
use eventstore.Base.{ℕ, zero, suc, ◌+◌, ◌≡◌, Option, none, some, Text, text, [], ◌∷◌, false, All}
use eventstore.Es.Error.{Error, plain}
use eventstore.Es.Envelope.{Envelope}
use eventstore.Outbox.Drain.{Drain, run_batches}
use eventstore.Outbox.Run.{fresh_progress}
use eventstore.Outbox.Halting.{Orderly, Admitted}
use eventstore.Outbox.Order.{run_batches-Orderly}
use eventstore.Sqlite.Tables.{same_entry}
use eventstore.Sqlite.Outbox.{
  join_events, pending_outbox_with_envelope, sqlite_outbox, mark_outbox_published,
}
use eventstore.Sqlite.Heads.{
  IsHead, pending_outbox_with_envelope-IsHead, mark_outbox_published-settles,
}
use eventstore.Sqlite.Dlq.{
  count_pending, count_failing, count_dlq, count_untried, replay_all_dlq, count_pending-split,
  replay_all_dlq-empties,
}
use eventstore.Tests.ToyWire.{toy}
use eventstore.Tests.SqliteTests.{opened}

abbrev acme : Text
acme = text "acme"

pending_outbox_with_envelope-IsHead_example :
    All
      (IsHead (9 ∷ []) 5 (join_events opened.outbox opened.events))
      (pending_outbox_with_envelope (9 ∷ []) 5 10 opened)
pending_outbox_with_envelope-IsHead_example =
    pending_outbox_with_envelope-IsHead (9 ∷ []) 5 10 opened

mark_outbox_published-settles_example :
    All
      (λ j. same_entry acme 1 j.entry ≡ false)
      (pending_outbox_with_envelope (9 ∷ []) 5 10 (mark_outbox_published (8 ∷ []) acme 1 opened))
mark_outbox_published-settles_example =
    mark_outbox_published-settles (8 ∷ []) (9 ∷ []) acme 1 5 10 opened

count_pending-split_example :
    count_untried acme opened + count_failing acme 3 opened + count_dlq acme 3 opened
    ≡ count_pending acme opened
count_pending-split_example = count_pending-split acme 3 opened

replay_all_dlq-empties_example :
    ((replay_all_dlq acme 3 opened).0 ≡ count_dlq acme 3 opened)
    × (count_dlq acme 3 (replay_all_dlq acme 3 opened).1 ≡ 0)
    × (count_pending acme (replay_all_dlq acme 3 opened).1 ≡ count_pending acme opened)
    × (count_failing acme 3 (replay_all_dlq acme 3 opened).1 ≡ count_failing acme 3 opened)
replay_all_dlq-empties_example = replay_all_dlq-empties acme 3 opened

abbrev drain : Drain
drain = record {
  tenant = [];
  batch_size = 0;
  cleanup_retention = 0;
  lock_key = [];
  shard = 0;
  total_shards = 0;
  max_attempts = 3;
  backoff_base = 0;
  backoff_max = 0;
  auto_resume_after_dlq = false;
}

-- A publisher that is down for its first call.
abbrev first_fails : ℕ → Envelope → Option Error
first_fails zero e = some plain
first_fails (suc n) e = none

abbrev still : ℕ → ℕ
still n = 200

run_batches-Orderly_example :
    let calls =
      (run_batches drain (sqlite_outbox toy (λ e. []) (8 ∷ [])) first_fails still 5 (
        fresh_progress drain
          (sqlite_outbox toy (λ e. []) (8 ∷ []))
          first_fails
          still
          []
          opened)).1.calls in
    Orderly drain calls × All (Admitted drain []) calls
run_batches-Orderly_example =
    run_batches-Orderly drain (sqlite_outbox toy (λ e. []) (8 ∷ [])) first_fails still [] 5 opened

abbrev second : ℕ
second = 1000000000
