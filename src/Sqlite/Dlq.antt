-- ===== src/Sqlite/Dlq.antt =====
-- adapters/storage/sqlite/outbox_admin.go: counts and the actions of an operator on the rows whose
-- attempts are used up.
use eventstore.Base.{
  ℕ, ◌+◌, ◌<◌, ◌≡◌, refl, Bool, ◌&&◌, Option, none, some, List, [], ◌∷◌, ◌++◌, Text, text, text_eq,
  arith, ltb, ◌==◌, if◌then◌else◌, length, take, where_rows, map,
}
use eventstore.Sqlite.Tables.{Db, OutboxEntry, same_entry}
use eventstore.Sqlite.Outbox.{
  Joined, is_null, in_dlq, safe_max_attempts, update_outbox, join_events, order_joined,
}

abbrev pub of_tenant : Text → (OutboxEntry → Bool) → OutboxEntry → Bool
of_tenant t p o = text_eq o.tenant_id t && p o

-- SELECT COUNT(*).
abbrev pub count : (OutboxEntry → Bool) → List OutboxEntry → ℕ
count p os = length (where_rows p os)

abbrev pub is_open : OutboxEntry → Bool
is_open o = is_null o.published_at

abbrev pub is_failing : ℕ → OutboxEntry → Bool
is_failing max_attempts o = is_open o && (ltb 0 o.attempts && ltb o.attempts max_attempts)

-- CountPending.
unfoldable pub count_pending : Text → Db → ℕ
count_pending t db = count (of_tenant t is_open) db.outbox

-- CountFailing.
unfoldable pub count_failing : Text → ℕ → Db → ℕ
unfolding safe_max_attempts
count_failing t max_attempts db =
    count (of_tenant t (is_failing (safe_max_attempts max_attempts))) db.outbox

-- CountDLQ.
unfoldable pub count_dlq : Text → ℕ → Db → ℕ
unfolding safe_max_attempts
count_dlq t max_attempts db =
    count (of_tenant t (in_dlq (safe_max_attempts max_attempts))) db.outbox

-- The rows of ListDLQ, before their times are parsed.
unfoldable pub list_dlq : Text → ℕ → ℕ → ℕ → Db → List Joined
unfolding join_events order_joined safe_max_attempts
list_dlq t max_attempts after limit db = take limit (
    order_joined (
      where_rows
        (λ j.
          of_tenant t (in_dlq (safe_max_attempts max_attempts)) j.entry
          && ltb after j.entry.global_position)
        (join_events db.outbox db.events)))

abbrev pub replayed : OutboxEntry → OutboxEntry
replayed o = record o { attempts = 0; last_error = none; next_attempt_at = none }

-- ReplayDLQ, which resets the row whatever its state.
unfoldable pub replay_dlq : Text → ℕ → Db → Db
unfolding update_outbox
replay_dlq t gp db = update_outbox (same_entry t gp) replayed db

abbrev pub or_empty : Option Text → Text
or_empty none = []
or_empty (some t) = t

-- AbandonDLQ.
unfoldable pub abandon_dlq : Text → Text → ℕ → Db → Db
unfolding update_outbox
abandon_dlq sql_now t gp db =
    update_outbox (λ o. same_entry t gp o && is_open o)
      (λ o. record o {
        published_at = some sql_now;
        last_error = some (or_empty o.last_error ++ text " [abandoned]");
      })
      db

-- ReplayAllDLQ, with the number of rows reset.
unfoldable pub replay_all_dlq : Text → ℕ → Db → ℕ × Db
unfolding update_outbox safe_max_attempts
replay_all_dlq t max_attempts db =
    let p = of_tenant t (in_dlq (safe_max_attempts max_attempts)) in
    (count p db.outbox, update_outbox p replayed db)

-- The rows of a tenant that no attempt has been made for.
abbrev pub count_untried : Text → Db → ℕ
count_untried t db = count (of_tenant t (λ o. is_open o && o.attempts == 0)) db.outbox

split_open :
    (t : Text) (n : ℕ) (os : List OutboxEntry)
    → 0 < n
    → count (of_tenant t (λ o. is_open o && o.attempts == 0)) os
        + count (of_tenant t (is_failing n)) os
        + count (of_tenant t (in_dlq n)) os
      ≡ count (of_tenant t is_open) os
unfolding where_rows
split_open t n [] p = refl
split_open t n (o ∷ os) p = ground (arith, split_open t n os p)

safe-positive : (n : ℕ) → 0 < safe_max_attempts n
unfolding safe_max_attempts
safe-positive n = ground arith

-- The pending rows of a tenant are those not tried yet, those that are failing and those in the
-- DLQ, each counted once.
pub count_pending-split :
    (t : Text) (max_attempts : ℕ) (db : Db)
    → count_untried t db + count_failing t max_attempts db + count_dlq t max_attempts db
      ≡ count_pending t db
unfolding count_pending count_failing count_dlq
count_pending-split t max_attempts db =
    split_open t (safe_max_attempts max_attempts) db.outbox (safe-positive max_attempts)

replay_none_left :
    (t : Text) (n : ℕ) (os : List OutboxEntry)
    → 0 < n
    → let p = of_tenant t (in_dlq n) in
      (count p (map (λ o. if p o then replayed o else o) os) ≡ 0)
      × (count (of_tenant t is_open) (map (λ o. if p o then replayed o else o) os)
          ≡ count (of_tenant t is_open) os)
      × (count (of_tenant t (is_failing n)) (map (λ o. if p o then replayed o else o) os)
          ≡ count (of_tenant t (is_failing n)) os)
unfolding where_rows
replay_none_left t n [] p = (refl, refl, refl)
replay_none_left t n (o ∷ os) p =
    let (a, b, c) = replay_none_left t n os p in
    (ground (arith, a), ground (arith, b), ground (arith, c))

-- ReplayAllDLQ reports the rows that were in the DLQ, leaves none in it, loses no pending row and
-- moves none into the rows that are failing.
pub replay_all_dlq-empties :
    (t : Text) (max_attempts : ℕ) (db : Db)
    → let out = replay_all_dlq t max_attempts db in
      (out.0 ≡ count_dlq t max_attempts db)
      × (count_dlq t max_attempts out.1 ≡ 0)
      × (count_pending t out.1 ≡ count_pending t db)
      × (count_failing t max_attempts out.1 ≡ count_failing t max_attempts db)
unfolding replay_all_dlq count_dlq count_pending count_failing update_outbox
replay_all_dlq-empties t max_attempts db =
    let (a, b, c) =
      replay_none_left t (safe_max_attempts max_attempts) db.outbox (safe-positive max_attempts) in
    (refl, a, b, c)
