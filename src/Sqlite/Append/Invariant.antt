-- ===== src/Sqlite/Append/Invariant.antt =====
-- Invariants of the tables that each step of an append (adapters/storage/sqlite/append.go) keeps.
use eventstore.Base.{ℕ, suc, ◌≡◌, subst, inl, inr, List, [], ◌∷◌, Text, ok, bind-ok}
use eventstore.Es.StreamId.{StreamId}
use eventstore.Es.Envelope.{AppendParams, AppendResult, ConstraintOp, EventToAppend, Time}
use eventstore.Es.Wire.{Wire}
use eventstore.Sqlite.Tables.{Db}
use eventstore.Sqlite.Append.{
  Loop, apply_op, apply_ops, append_event, append_events, append_tx, append, first_pass,
  write_state,
}
use eventstore.Sqlite.Append.Laws.{append-Settled}

-- The steps of an append keep `P`.
pub record StepsKeep (w : Wire) (P : Db → Type 0) : Type 0 where
  pub op : (sid : StreamId) (o : ConstraintOp) (a b : Db) → apply_op sid o a ≡ ok b → P a → P b
  pub event :
      (sid : StreamId) (expected : ℕ) (at : Text) (i : ℕ) (ev : EventToAppend) (l m : Loop)
      → append_event w sid expected at i ev l ≡ ok m
      → P l.db
      → P m.db
  pub state : (p : AppendParams) (at : Text) (a b : Db) → write_state w p at a ≡ ok b → P a → P b

module _ (w : Wire) (P : Db → Type 0) (keep : StepsKeep w P) where
  ops-keep :
      (sid : StreamId) (os : List ConstraintOp) (a b : Db) → apply_ops sid os a ≡ ok b → P a → P b
  unfolding apply_ops
  ops-keep sid [] a b h k = let same : a ≡ b = cc in rw (← same) k
  ops-keep sid (o ∷ os) a b h k =
      let (c, e, rest) = bind-ok (apply_op sid o a) (apply_ops sid os) h in
      ops-keep sid os c b rest (keep.op sid o a c e k)

  events-keep :
      (sid : StreamId) (expected : ℕ) (at : Text) (i : ℕ) (evs : List EventToAppend) (l m : Loop)
      → append_events w sid expected at i evs l ≡ ok m
      → P l.db
      → P m.db
  unfolding append_events
  events-keep sid expected at i [] l m h k = let same : l ≡ m = cc in rw (← same) k
  events-keep sid expected at i (ev ∷ evs) l m h k =
      let (n, e, rest) =
        bind-ok (append_event w sid expected at i ev l)
          (append_events w sid expected at (suc i) evs) h in
      events-keep sid expected at (suc i) evs n m rest (keep.event sid expected at i ev l n e k)

  tx-keep :
      (now : Time) (p : AppendParams) (a b : Db) (r : AppendResult)
      → append_tx w now p a ≡ ok (r, b)
      → P a
      → P b
  unfolding append_tx
  tx-keep now p a b r h k =
      let at = w.format_time now in
      let (c, claims, h₁) = bind-ok (apply_ops p.stream_id p.constraints a) _ h in
      let (l, ran, h₂) =
        bind-ok
          (append_events w p.stream_id p.expected_version at 0 p.events (first_pass p.stream_id c))
          _ h₁ in
      let (d, stored, h₃) = bind-ok (write_state w p at l.db) _ h₂ in
      let final : d ≡ b = cc in
      let begin = ops-keep p.stream_id p.constraints a c claims k in
      let looped =
        events-keep p.stream_id p.expected_version at 0 p.events (first_pass p.stream_id c) l ran
          begin in
      subst P final (keep.state p at l.db d stored looped)

  -- An append, whether it succeeds or fails, keeps what each of its steps keeps.
  pub append-keep : (now : Time) (p : AppendParams) (db : Db) → P db → P (append w now p db).1
  append-keep now p db k = elim (append-Settled w now p db) [
    | inl (e, _, same) ↦ rw same k
    | inr (r, _, _, _, tx) ↦ tx-keep now p db (append w now p db).1 r tx k
  ]
