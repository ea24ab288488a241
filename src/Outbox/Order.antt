-- ===== src/Outbox/Order.antt =====
-- The order in which a run of outbox/drain.go hands the events of one stream to the publisher.
use eventstore.Base.{
  ℕ, zero, suc, ◌+◌, ◌≡◌, refl, Bool, true, false, not, ◌&&◌, Option, none, some, List, [], ◌∷◌,
  Text, ok, err, arith, if◌then◌else◌, length, any_row, All,
}
use eventstore.Es.Error.{Error, Result}
use eventstore.Es.Envelope.{Envelope, Time}
use eventstore.Outbox.Backoff.{compute_next_attempt_at}
use eventstore.Outbox.Drain.{
  Drain, Delivery, OutboxRow, OutboxStore, Progress, row_key, skips, halts, crosses_dlq, fail_row,
  pass_row, settle_row, process_row, process_rows, run_batch, run_batches, batch_size, passing,
  failing, unless_skipped, unless_failed, process_page, if_processed,
}
use eventstore.Outbox.Run.{fresh_progress}
use eventstore.Outbox.Halting.{
  Orderly, Admitted, Good, called-Good, passed-back, failed-back, grown-kept,
}

module _ (dr : Drain) where
  abbrev delivered : OutboxRow → Bool → Bool → Delivery
  delivered row p x = record {
    key = row_key row;
    envelope = row.envelope;
    published = p;
    crossed_dlq = x;
  }

  -- A run that stopped at an error makes no further call, so its sets do not matter.
  Kept : {D : Type 0} → List Text → Option Error × Progress D → Type 0
  Kept keys (none, b) = Good dr keys b
  Kept keys (some e, b) = Orderly dr b.calls × All (Admitted dr keys) b.calls

  module _ {D : Type 0} (store : OutboxStore D) (publish : ℕ → Envelope → Option Error)
      (clock : ℕ → Time) (keys : List Text) where
    pass_row-Kept :
        (row : OutboxRow) (b : Progress D)
        → Good dr keys b
        → skips dr b.halted b.quarantined (row_key row) ≡ false
        → (r : Result D) → Kept keys (passing dr store publish clock row b r)
    unfolding Kept
    pass_row-Kept row b good h (err x) =
        let c =
          called-Good dr keys b good (delivered row true false) b.halted b.quarantined b.store
            b.published b.any_processed h
            (passed-back dr keys b good (delivered row true false) refl) good.kept in
        (c.orderly, c.admitted)
    pass_row-Kept row b good h (ok d) =
        called-Good dr keys b good (delivered row true false) b.halted b.quarantined d
          (b.published + 1) true h (passed-back dr keys b good (delivered row true false) refl)
          good.kept

    failed-Good :
        (row : OutboxRow) (b : Progress D) (crossed : Bool) (d : D) (any : Bool)
        → Good dr keys b
        → skips dr b.halted b.quarantined (row_key row) ≡ false
        → Good dr keys (record b {
          calls = delivered row false crossed ∷ b.calls;
          store = d;
          any_processed = any;
          halted = if halts dr crossed then row_key row ∷ b.halted else b.halted;
          quarantined =
              if crossed && not dr.auto_resume_after_dlq
              then row_key row ∷ b.quarantined
              else b.quarantined;
        })
    failed-Good row b crossed d any good h =
        let key = row_key row in
        let quarantines = crossed && not dr.auto_resume_after_dlq in
        called-Good dr keys b good (delivered row false crossed)
          (if halts dr crossed then key ∷ b.halted else b.halted)
          (if quarantines then key ∷ b.quarantined else b.quarantined) d b.published any h
          (failed-back dr keys b good (delivered row false crossed))
          (grown-kept dr keys b good quarantines key)

    fail_row-Kept :
        (row : OutboxRow) (b : Progress D) (crossed : Bool)
        → Good dr keys b
        → skips dr b.halted b.quarantined (row_key row) ≡ false
        → (r : Result D) → Kept keys (failing dr store publish clock row b crossed r)
    unfolding Kept
    fail_row-Kept row b crossed good h (err x) =
        let c = failed-Good row b crossed b.store true good h in (c.orderly, c.admitted)
    fail_row-Kept row b crossed good h (ok d) = failed-Good row b crossed d true good h

    settle_row-Kept :
        (row : OutboxRow) (b : Progress D)
        → Good dr keys b
        → skips dr b.halted b.quarantined (row_key row) ≡ false
        → (o : Option Error) → Kept keys (settle_row dr store publish clock row o b)
    unfolding pass_row fail_row
    settle_row-Kept row b good h none =
        pass_row-Kept row b good h
          (store.mark_outbox_published row.envelope.tenant_id row.envelope.global_position b.store)
    settle_row-Kept row b good h (some e) = fail_row-Kept row b (crosses_dlq dr row) good h (
        store.mark_outbox_failed row.envelope.tenant_id row.envelope.global_position e
          (compute_next_attempt_at dr.backoff_base dr.backoff_max (clock (suc (length b.calls)))
            (row.attempts + 1))
          b.store)

    process_row-Kept :
        (row : OutboxRow) (b : Progress D) (x : Bool)
        → Good dr keys b
        → skips dr b.halted b.quarantined (row_key row) ≡ x
        → Kept keys (unless_skipped dr store publish clock row b x)
    unfolding Kept
    process_row-Kept row b true good h = good
    process_row-Kept row b false good h =
        settle_row-Kept row b good h (publish (length b.calls) row.envelope)

    unless_failed-Kept :
        (next : Progress D → Option Error × Progress D) (out : Option Error × Progress D)
        → Kept keys out
        → ((b : Progress D) → Good dr keys b → Kept keys (next b))
        → Kept keys (unless_failed dr store publish clock next out)
    unfolding Kept
    unless_failed-Kept next (some e, b) kept onward = kept
    unless_failed-Kept next (none, b) kept onward = onward b kept

    process_rows-Kept :
        (rows : List OutboxRow) (b : Progress D)
        → Good dr keys b
        → Kept keys (process_rows dr store publish clock rows b)
    unfolding process_rows process_row Kept
    process_rows-Kept [] b good = good
    process_rows-Kept (row ∷ rows) b good =
        unless_failed-Kept (process_rows dr store publish clock rows)
          (process_row dr store publish clock row b)
          (process_row-Kept row b (skips dr b.halted b.quarantined (row_key row)) good refl)
          (process_rows-Kept rows)

    rested : (b : Progress D) → Good dr keys b → Good dr keys (record b { any_processed = false })
    rested b good = record {
      orderly = good.orderly;
      remembered = good.remembered;
      kept = good.kept;
      admitted = good.admitted;
    }

    page-Kept :
        (b : Progress D) (r : Result (List OutboxRow))
        → Good dr keys b
        → Kept keys (process_page dr store publish clock b r)
    unfolding Kept
    page-Kept b (err e) good = (good.orderly, good.admitted)
    page-Kept b (ok rows) good =
        process_rows-Kept rows (record b { any_processed = false }) (rested b good)

    onward-Kept :
        (next : Progress D → Option Error × Progress D) (x : Bool) (b : Progress D)
        → Good dr keys b
        → ((b : Progress D) → Good dr keys b → Kept keys (next b))
        → Kept keys (if_processed dr store publish clock next x b)
    unfolding Kept
    onward-Kept next true b good step = step b good
    onward-Kept next false b good step = good

    run_batches-Kept :
        (fuel : ℕ) (b : Progress D)
        → Good dr keys b
        → Kept keys (run_batches dr store publish clock fuel b)
    unfolding run_batches run_batch Kept
    run_batches-Kept zero b good = good
    run_batches-Kept (suc fuel) b good =
        unless_failed-Kept
          (λ c.
            if_processed dr store publish clock (run_batches dr store publish clock fuel)
              c.any_processed c)
          (run_batch dr store publish clock b)
          (page-Kept b
            (store.pending_outbox (clock (length b.calls)) dr.tenant (batch_size dr) dr.max_attempts
              b.store)
            good)
          (λ c g.
            onward-Kept (run_batches dr store publish clock fuel) c.any_processed c g
              (run_batches-Kept fuel))

    Kept-calls :
        (out : Option Error × Progress D)
        → Kept keys out
        → Orderly dr out.1.calls × All (Admitted dr keys) out.1.calls
    unfolding Kept
    Kept-calls (none, b) good = (good.orderly, good.admitted)
    Kept-calls (some e, b) kept = kept

    -- In a run, over whatever store, publisher and clock, no event of a stream is handed to the
    -- publisher after one of that stream failed, unless the failure crossed into the DLQ with
    -- AutoResumeAfterDLQ set; and each call is for a stream of the drain's shard that was not
    -- quarantined at the start.
    pub run_batches-Orderly :
        (fuel : ℕ) (d : D)
        → let calls =
            (run_batches dr store publish clock fuel
              (fresh_progress dr store publish clock keys d)).1.calls in
          Orderly dr calls × All (Admitted dr keys) calls
    unfolding any_row
    run_batches-Orderly fuel d =
        Kept-calls
          (run_batches dr store publish clock fuel (fresh_progress dr store publish clock keys d))
          (run_batches-Kept fuel (fresh_progress dr store publish clock keys d) (record {
            orderly = tt;
            remembered = λ k h. absurd (ground arith);
            kept = λ k h. h;
            admitted = tt;
          }))
