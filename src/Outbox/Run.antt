-- ===== src/Outbox/Run.antt =====
-- Run and RunOnce of outbox/drain.go: the drain lock, the quarantined streams and the cleanup.
use eventstore.Base.{
  ℕ, ◌-◌, true, false, not, ◌&&◌, Option, none, some, List, [], ◌∷◌, Text, ok, err, ltb,
  if◌then◌else◌, length, map,
}
use eventstore.Es.Error.{Error, Result}
use eventstore.Es.Envelope.{Envelope, Time}
use eventstore.Outbox.Drain.{
  Drain, OutboxStore, Progress, quarantine_key, validate_sharding, run_batch, run_batches,
}

-- What a run returns: the rows published, the rows cleaned up, and the error.
pub record Report : Type 0 where
  pub published : ℕ
  pub cleaned : ℕ
  pub error : Option Error

abbrev pub failed : Error → Report
failed e = record { published = 0; cleaned = 0; error = some e }

abbrev pub nothing_done : Report
nothing_done = record { published = 0; cleaned = 0; error = none }

module _ (dr : Drain) {D : Type 0} (store : OutboxStore D) (publish : ℕ → Envelope → Option Error)
    (clock : ℕ → Time) where
  abbrev pub fresh_progress : List Text → D → Progress D
  fresh_progress keys d = record {
    store = d;
    halted = keys;
    quarantined = keys;
    calls = [];
    published = 0;
    any_processed = false;
  }

  -- The sets that a run starts from.
  unfoldable pub opening : D → Result (Progress D)
  opening d =
      if not dr.auto_resume_after_dlq && ltb 0 dr.max_attempts
      then elim (store.quarantined_streams dr.tenant dr.max_attempts d) [
        | err e ↦ err e
        | ok refs ↦ ok (fresh_progress (map (λ r. quarantine_key r.tenant_id r.stream_id) refs) d)
      ]
      else ok (fresh_progress [] d)

  -- The pass at the end of Run.
  unfoldable pub clean_up : Option Error × Progress D → Report × D
  clean_up (some e, b) = (record { published = b.published; cleaned = 0; error = some e }, b.store)
  clean_up (none, b) =
      if ltb 0 dr.cleanup_retention
      then elim (store.cleanup_published_outbox dr.tenant
          (clock (length b.calls) - dr.cleanup_retention) b.store) [
            | err e ↦ (record { published = b.published; cleaned = 0; error = some e }, b.store)
            | ok (n, d) ↦ (record { published = b.published; cleaned = n; error = none }, d)
          ]
      else (record { published = b.published; cleaned = 0; error = none }, b.store)

  unfoldable pub drain_all : ℕ → D → Report × D
  unfolding opening clean_up
  drain_all fuel d = elim (opening d) [
    | err e ↦ (failed e, d)
    | ok b ↦ clean_up (run_batches dr store publish clock fuel b)
  ]

  abbrev pub batch_report : Option Error × Progress D → Report × D
  batch_report out =
      (record { published = out.1.published; cleaned = 0; error = out.0 }, out.1.store)

  unfoldable pub drain_batch : D → Report × D
  unfolding opening
  drain_batch d = elim (opening d) [
    | err e ↦ (failed e, d)
    | ok b ↦ batch_report (run_batch dr store publish clock b)
  ]

  -- acquireLock, the body of the run, and the deferred release.
  unfoldable pub with_lock : (D → Report × D) → D → Report × D
  with_lock body d = elim dr.lock_key [
    | [] ↦ body d
    | _ ∷ _ ↦ elim store.locker [
      | none ↦ body d
      | some l ↦ elim (l.try_acquire_drain_lock dr.lock_key d) [
        | err e ↦ (failed e, d)
        | ok (false, d') ↦ (nothing_done, d')
        | ok (true, d') ↦ let out = body d' in (out.0, l.release_drain_lock dr.lock_key out.1)
      ]
    ]
  ]

  -- The method Run, for at most `fuel` batches.
  unfoldable pub run : ℕ → D → Report × D
  unfolding with_lock drain_all
  run fuel d = elim (validate_sharding dr) [
    | err e ↦ (failed e, d)
    | ok _ ↦ with_lock (drain_all fuel) d
  ]

  -- The method RunOnce.
  unfoldable pub run_once : D → Report × D
  unfolding with_lock drain_batch
  run_once d = elim (validate_sharding dr) [
    | err e ↦ (failed e, d)
    | ok _ ↦ with_lock drain_batch d
  ]
