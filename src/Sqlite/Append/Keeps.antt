-- ===== src/Sqlite/Append/Keeps.antt =====
-- What the steps of an append (adapters/storage/sqlite/append.go) leave alone.
use eventstore.Base.{
  ℕ, ◌+◌, ◌≡◌, refl, ◌∙◌, false, Option, none, some, List, [], ◌∷◌, ◌++◌, Text, ok, err, arith,
  any_row, ◌>>=◌,
}
use eventstore.Es.StreamId.{StreamId}
use eventstore.Es.Envelope.{AppendParams, ConstraintOp, claim, release, unknown_op, Uuid}
use eventstore.Es.Error.{Result}
use eventstore.Es.Wire.{Wire}
use eventstore.Sqlite.Tables.{
  Db, EventRow, same_version, same_event, insert_event, insert_outbox, claim_unique, release_unique,
  upsert_state_cache,
}
use eventstore.Sqlite.Append.{
  apply_op, apply_ops, put_cached, write_state, mapped, wrapped, map_err,
}

-- The part of the tables that records events.
pub record SameLog (a b : Db) : Type 0 where
  pub events : b.events ≡ a.events
  pub outbox : b.outbox ≡ a.outbox
  pub sequence : b.sequence ≡ a.sequence

pub apply_op-SameLog :
    (sid : StreamId) (op : ConstraintOp) (a b : Db) → apply_op sid op a ≡ ok b → SameLog a b
unfolding apply_op claim_unique release_unique map_err
apply_op-SameLog sid (claim scope value) a b h = ground arith
apply_op-SameLog sid (release scope value) a b h = ground arith
apply_op-SameLog sid (unknown_op kind) a b h = absurd (ground arith)

bind-case :
    {A B : Type 0} (m : Result A) (f : A → Result B) (b : B)
    → (m >>= f) ≡ ok b
    → (a : A) × (m ≡ ok a) × (f a ≡ ok b)
bind-case (ok a) f b h = (a, refl, h)
bind-case (err e) f b h = cc

-- Constraint operations change the table of claims only.
pub apply_ops-SameLog :
    (sid : StreamId) (ops : List ConstraintOp) (a b : Db) → apply_ops sid ops a ≡ ok b → SameLog a b
unfolding apply_ops
apply_ops-SameLog sid [] a b h = ground arith
apply_ops-SameLog sid (op ∷ ops) a b h =
    let (c, e, rest) = bind-case (apply_op sid op a) (apply_ops sid ops) b h in
    let one = apply_op-SameLog sid op a c e in
    let more = apply_ops-SameLog sid ops c b rest in
    record {
      events = more.events ∙ one.events;
      outbox = more.outbox ∙ one.outbox;
      sequence = more.sequence ∙ one.sequence;
    }

cached-SameLog :
    (w : Wire) (p : AppendParams) (at : Text) (a b : Db) (o : Option Text)
    → put_cached w p at a o ≡ ok b
    → SameLog a b × (b.claims ≡ a.claims)
unfolding upsert_state_cache
cached-SameLog w p at a b none h = ground arith
cached-SameLog w p at a b (some bytes) h =
    let (state, _, rest) = bind-case (w.jsonb bytes) _ _ h in ground arith

pub write_state-SameLog :
    (w : Wire) (p : AppendParams) (at : Text) (a b : Db) → write_state w p at a ≡ ok b → SameLog a b
unfolding write_state
write_state-SameLog w p at a b h = (cached-SameLog w p at a b p.new_state h).0

-- A row that is inserted clashes with none in the table, and goes to its end.
pub record Inserted (row : EventRow) (a : Db) (gp : ℕ) (b : Db) : Type 0 where
  pub position : gp ≡ a.sequence + 1
  pub events : b.events ≡ a.events ++ record row { global_position = a.sequence + 1 } ∷ []
  pub sequence : b.sequence ≡ a.sequence + 1
  pub outbox : b.outbox ≡ a.outbox
  pub claims : b.claims ≡ a.claims
  pub new_version : any_row (same_version row) a.events ≡ false
  pub new_event : any_row (same_event row) a.events ≡ false

pub insert_event-Inserted :
    (row : EventRow) (a : Db) (gp : ℕ) (b : Db)
    → mapped (insert_event row a) ≡ ok (gp, b)
    → Inserted row a gp b
unfolding insert_event map_err
insert_event-Inserted row a gp b h = ground arith

pub insert_outbox-events :
    (t : Text) (gp : ℕ) (id : Uuid) (a b : Db)
    → wrapped (insert_outbox t gp id a) ≡ ok b
    → (b.events ≡ a.events) × (b.sequence ≡ a.sequence)
unfolding insert_outbox
insert_outbox-events t gp id a b h = ground arith

pub insert_outbox-claims :
    (t : Text) (gp : ℕ) (id : Uuid) (a b : Db)
    → wrapped (insert_outbox t gp id a) ≡ ok b
    → b.claims ≡ a.claims
unfolding insert_outbox
insert_outbox-claims t gp id a b h = ground arith

pub write_state-claims :
    (w : Wire) (p : AppendParams) (at : Text) (a b : Db)
    → write_state w p at a ≡ ok b
    → b.claims ≡ a.claims
unfolding write_state
write_state-claims w p at a b h = (cached-SameLog w p at a b p.new_state h).1
