-- ===== src/Outbox/Drain.antt =====
-- outbox/drain.go over the interface es.OutboxStore of es/outbox.go. The publisher is a function of
-- the number of calls made so far in the run, so it may answer differently each time, and so is the
-- clock, which only moves on between calls. A negative number in the configuration stands for 0,
-- as the source treats both alike.
use eventstore.Base.{
  ℕ, zero, suc, ◌+◌, Bool, true, false, not, ◌&&◌, ◌||◌, Option, none, some, List, [], ◌∷◌, ◌++◌,
  Text, text_eq, ok, err, ltb, leb, ◌==◌, if◌then◌else◌, length, any_row,
}
use eventstore.Es.Error.{Error, Result, plain}
use eventstore.Es.StreamId.{canonical}
use eventstore.Es.Envelope.{Envelope, Time}
use eventstore.Outbox.Backoff.{compute_next_attempt_at, stream_shard}

pub record OutboxRow : Type 0 where
  pub envelope : Envelope
  pub attempts : ℕ

pub record StreamRef : Type 0 where
  pub tenant_id : Text
  pub stream_id : Text

-- es.DrainLocker.
pub record DrainLocker (D : Type 0) : Type 0 where
  pub try_acquire_drain_lock : Text → D → Result (Bool × D)
  pub release_drain_lock : Text → D → D

-- es.OutboxStore; `locker` is none for a store that is no es.DrainLocker.
pub record OutboxStore (D : Type 0) : Type 0 where
  pub pending_outbox : Time → Text → ℕ → ℕ → D → Result (List OutboxRow)
  pub quarantined_streams : Text → ℕ → D → Result (List StreamRef)
  pub mark_outbox_published : Text → ℕ → D → Result D
  pub mark_outbox_failed : Text → ℕ → Error → Time → D → Result D
  pub cleanup_published_outbox : Text → Time → D → Result (ℕ × D)
  pub locker : Option (DrainLocker D)

-- The fields of the struct Drain but for its store and its publisher.
pub record Drain : Type 0 where
  pub tenant : Text
  pub batch_size : ℕ
  pub cleanup_retention : ℕ
  pub lock_key : Text
  pub shard : ℕ
  pub total_shards : ℕ
  pub max_attempts : ℕ
  pub backoff_base : ℕ
  pub backoff_max : ℕ
  pub auto_resume_after_dlq : Bool

-- A call of the publisher. OnDLQ is called exactly where `crossed_dlq` holds and the failure could
-- be marked: runBatch returns before OnDLQ where MarkOutboxFailed fails.
pub record Delivery : Type 0 where
  pub key : Text
  pub envelope : Envelope
  pub published : Bool
  pub crossed_dlq : Bool

-- The variables of a run, with the calls made, the last one first.
pub record Progress (D : Type 0) : Type 0 where
  pub store : D
  pub halted : List Text
  pub quarantined : List Text
  pub calls : List Delivery
  pub published : ℕ
  pub any_processed : Bool

-- quarantineKey.
unfoldable pub quarantine_key : Text → Text → Text
quarantine_key tenant stream = tenant ++ 124 ∷ stream

-- A lookup in a set that the source keeps as map[string]bool.
abbrev pub has : Text → List Text → Bool
has key keys = any_row (text_eq key) keys

unfoldable pub row_key : OutboxRow → Text
unfolding quarantine_key
row_key row = quarantine_key row.envelope.tenant_id (canonical row.envelope.stream_id)

module _ (dr : Drain) where
  -- The method batchSize.
  unfoldable pub batch_size : ℕ
  batch_size = if dr.batch_size == 0 then 100 else dr.batch_size

  -- The method validate, for a store and a publisher that are there.
  unfoldable pub validate_sharding : Result (Unit {0})
  validate_sharding =
      if ltb 0 dr.total_shards && leb dr.total_shards dr.shard then err plain else ok tt

  -- The first two tests of the loop in runBatch.
  unfoldable pub skips : List Text → List Text → Text → Bool
  skips halted quarantined key =
      (ltb 0 dr.total_shards && not (stream_shard key dr.total_shards == dr.shard))
      || (has key quarantined || has key halted)

  unfoldable pub crosses_dlq : OutboxRow → Bool
  crosses_dlq row = ltb 0 dr.max_attempts && leb dr.max_attempts (row.attempts + 1)

  -- Whether a failure halts its stream for the rest of the run.
  abbrev pub halts : Bool → Bool
  halts crossed = not (crossed && dr.auto_resume_after_dlq)

  module _ {D : Type 0} (store : OutboxStore D) (publish : ℕ → Envelope → Option Error)
      (clock : ℕ → Time) where
    -- A publish that failed with `e`; the last argument is what marking the row returns.
    abbrev pub failing : OutboxRow → Progress D → Bool → Result D → Option Error × Progress D
    failing row b crossed (err x) = (
      some x,
      record b {
        calls =
            record {
              key = row_key row;
              envelope = row.envelope;
              published = false;
              crossed_dlq = crossed;
            }
            ∷ b.calls;
      },
    )
    failing row b crossed (ok d) = (
      none,
      record b {
        calls =
            record {
              key = row_key row;
              envelope = row.envelope;
              published = false;
              crossed_dlq = crossed;
            }
            ∷ b.calls;
        store = d;
        any_processed = true;
        halted = if halts crossed then row_key row ∷ b.halted else b.halted;
        quarantined =
            if crossed && not dr.auto_resume_after_dlq
            then row_key row ∷ b.quarantined
            else b.quarantined;
      },
    )

    unfoldable pub fail_row : OutboxRow → Error → Progress D → Option Error × Progress D
    unfolding crosses_dlq
    fail_row row e b =
        let next_at =
          compute_next_attempt_at dr.backoff_base dr.backoff_max (clock (suc (length b.calls)))
            (row.attempts + 1) in
        failing row b (crosses_dlq row) (
          store.mark_outbox_failed row.envelope.tenant_id row.envelope.global_position e next_at
            b.store)

    -- A publish that succeeded, likewise.
    abbrev pub passing : OutboxRow → Progress D → Result D → Option Error × Progress D
    passing row b (err x) = (
      some x,
      record b {
        calls =
            record {
              key = row_key row;
              envelope = row.envelope;
              published = true;
              crossed_dlq = false;
            }
            ∷ b.calls;
      },
    )
    passing row b (ok d) = (
      none,
      record b {
        calls =
            record {
              key = row_key row;
              envelope = row.envelope;
              published = true;
              crossed_dlq = false;
            }
            ∷ b.calls;
        store = d;
        published = b.published + 1;
        any_processed = true;
      },
    )

    unfoldable pub pass_row : OutboxRow → Progress D → Option Error × Progress D
    pass_row row b =
        passing row b
          (store.mark_outbox_published row.envelope.tenant_id row.envelope.global_position b.store)

    abbrev pub settle_row : OutboxRow → Option Error → Progress D → Option Error × Progress D
    settle_row row none b = pass_row row b
    settle_row row (some e) b = fail_row row e b

    abbrev pub unless_skipped : OutboxRow → Progress D → Bool → Option Error × Progress D
    unless_skipped row b true = (none, b)
    unless_skipped row b false = settle_row row (publish (length b.calls) row.envelope) b

    -- One pass of the loop in runBatch.
    unfoldable pub process_row : OutboxRow → Progress D → Option Error × Progress D
    process_row row b = unless_skipped row b (skips b.halted b.quarantined (row_key row))

    abbrev pub unless_failed :
        (Progress D → Option Error × Progress D)
        → Option Error × Progress D
        → Option Error × Progress D
    unless_failed next (some e, b) = (some e, b)
    unless_failed next (none, b) = next b

    unfoldable pub process_rows : List OutboxRow → Progress D → Option Error × Progress D
    process_rows [] b = (none, b)
    process_rows (row ∷ rows) b = unless_failed (process_rows rows) (process_row row b)

    abbrev pub process_page : Progress D → Result (List OutboxRow) → Option Error × Progress D
    process_page b (err e) = (some e, record b { any_processed = false })
    process_page b (ok rows) = process_rows rows (record b { any_processed = false })

    -- runBatch. The counter `published` is that of the whole run.
    unfoldable pub run_batch : Progress D → Option Error × Progress D
    run_batch b =
        process_page b (
          store.pending_outbox (clock (length b.calls)) dr.tenant batch_size dr.max_attempts
            b.store)

    abbrev pub if_processed :
        (Progress D → Option Error × Progress D) → Bool → Progress D → Option Error × Progress D
    if_processed next true b = next b
    if_processed next false b = (none, b)

    -- The loop of Run, for at most `fuel` batches.
    unfoldable pub run_batches : ℕ → Progress D → Option Error × Progress D
    run_batches zero b = (none, b)
    run_batches (suc fuel) b =
        unless_failed (λ c. if_processed (run_batches fuel) c.any_processed c) (run_batch b)
