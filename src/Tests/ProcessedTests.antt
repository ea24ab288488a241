-- ===== src/Tests/ProcessedTests.antt =====
-- WithDedup over the sqlite table, with a handler that counts the events.
use eventstore.Base.{ℕ, suc, ◌≡◌, refl, Option, none, text_eq, any_row, [], ◌∷◌}
use eventstore.Es.Error.{Error}
use eventstore.Es.Envelope.{Envelope}
use eventstore.Projection.Dedup.{with_dedup}
use eventstore.Sqlite.Processed.{
  Processed, deliver_all, deliver_all-again, has_processed, mark_processed,
}
use eventstore.Tests.EsTests.{first}

abbrev count_event : Envelope → ℕ → Option Error × ℕ
count_event env n = (none, suc n)

abbrev first_processed : Processed
first_processed =
    record {
      projection_name = 3 ∷ [];
      tenant_id = first.tenant_id;
      event_id = first.event_id;
      processed_at = 4 ∷ [];
    }
    ∷ []

-- The same event twice is counted once.
counted_once :
    deliver_all count_event (3 ∷ []) (4 ∷ []) (first ∷ first ∷ []) (0, [])
    ≡ (none, (1, first_processed))
unfolding deliver_all with_dedup has_processed mark_processed any_row text_eq
counted_once = refl

deliver_all-again_example :
    deliver_all count_event (3 ∷ []) (4 ∷ []) (first ∷ first ∷ []) (1, first_processed)
    ≡ (none, (1, first_processed))
deliver_all-again_example =
    deliver_all-again count_event (3 ∷ []) (4 ∷ []) (first ∷ first ∷ []) (0, [])
      (1, first_processed) counted_once
