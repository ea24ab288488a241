-- ===== src/Sqlite/Append/Claims.antt =====
-- The table unique_claims under the constraint operations of adapters/storage/sqlite/append.go.
use eventstore.Base.{
  ℕ, suc, ◌≡◌, refl, sym, ◌∙◌, ap, subst, false, true, Bool, ◌&&◌, if◌then◌else◌, inl, inr, List,
  [], ◌∷◌, ◌++◌, Text, text_eq, text_eq_refl, eq_of_text_eq, ok, err, any_row, any_row-append,
  where_rows, arith, All, bind-ok,
}
use eventstore.Es.Error.{Error}
use eventstore.Es.StreamId.{StreamId, canonical}
use eventstore.Es.Envelope.{
  AppendParams, AppendResult, ConstraintOp, EventToAppend, Time, claim, release, unknown_op,
}
use eventstore.Es.Wire.{Wire}
use eventstore.Sqlite.Tables.{Db, ClaimRow, same_claim, claim_unique, release_unique}
use eventstore.Sqlite.Append.{
  Loop, apply_op, apply_ops, append_event, append_events, append_tx, append, first_pass,
  write_state, map_err,
}
use eventstore.Sqlite.Append.Keeps.{insert_outbox-claims, write_state-claims}
use eventstore.Sqlite.Append.Sound.{append_event-Step}
use eventstore.Sqlite.Append.Laws.{append-Settled}

-- The tenant has a row for the value in that scope.
abbrev pub Held : Text → Text → Text → Db → Type 0
Held t scope value db = any_row (same_claim t scope value) db.claims ≡ true

-- An operation that does not release the value in that scope.
abbrev pub Spares : Text → Text → ConstraintOp → Type 0
Spares scope value (claim s v) = Unit
Spares scope value (release s v) = (text_eq scope s && text_eq value v) ≡ false
Spares scope value (unknown_op k) = Unit

any-where :
    (q p : ClaimRow → Bool) (cs : List ClaimRow)
    → ((c : ClaimRow) → q c ≡ true → p c ≡ true)
    → any_row q cs ≡ true
    → any_row q (where_rows p cs) ≡ true
unfolding any_row where_rows
any-where q p [] f h = h
any-where q p (c ∷ cs) f h = ground (arith, f c, any-where q p cs f)

other_claim :
    (t scope value s v : Text) (c : ClaimRow)
    → (text_eq scope s && text_eq value v) ≡ false
    → same_claim t scope value c ≡ true
    → (if same_claim t s v c then false else true) ≡ true
other_claim t scope value s v c differ h =
    let at : c.scope ≡ scope = eq_of_text_eq c.scope scope (ground arith) in
    let is : c.value ≡ value = eq_of_text_eq c.value value (ground arith) in
    ground (arith, ap (λ z. text_eq z s) at, ap (λ z. text_eq z v) is)

module _ (sid : StreamId) (scope value : Text) where
  op-Held :
      (o : ConstraintOp) (a b : Db)
      → apply_op sid o a ≡ ok b
      → Spares scope value o
      → Held sid.tenant scope value a
      → Held sid.tenant scope value b
  unfolding apply_op claim_unique release_unique map_err
  op-Held (claim s v) a b h k held = ground (
    arith,
    any_row-append (same_claim sid.tenant scope value) a.claims
        (record { tenant_id = sid.tenant; scope = s; value = v; stream_id = canonical sid } ∷ []),
  )
  op-Held (release s v) a b h k held =
      let same : release_unique sid.tenant s v a ≡ b = cc in
      subst (Held sid.tenant scope value) same (
        any-where (same_claim sid.tenant scope value)
          (λ c. if same_claim sid.tenant s v c then false else true) a.claims
          (λ c. other_claim sid.tenant scope value s v c k) held)
  op-Held (unknown_op kind) a b h k held = absurd (ground arith)

  ops-Held :
      (os : List ConstraintOp) (a b : Db)
      → apply_ops sid os a ≡ ok b
      → All (Spares scope value) os
      → Held sid.tenant scope value a
      → Held sid.tenant scope value b
  unfolding apply_ops
  ops-Held [] a b h k held = let same : a ≡ b = cc in subst (Held sid.tenant scope value) same held
  ops-Held (o ∷ os) a b h (k, ks) held =
      let (c, one, rest) = bind-ok (apply_op sid o a) (apply_ops sid os) h in
      ops-Held os c b rest ks (op-Held o a c one k held)

  claim-Held :
      (a b : Db) → apply_op sid (claim scope value) a ≡ ok b → Held sid.tenant scope value b
  unfolding apply_op claim_unique map_err any_row
  claim-Held a b h = ground (
    arith,
    any_row-append (same_claim sid.tenant scope value) a.claims (
        record { tenant_id = sid.tenant; scope = scope; value = value; stream_id = canonical sid }
        ∷ []),
    text_eq_refl sid.tenant,
    text_eq_refl scope,
    text_eq_refl value,
  )

  claim-fails :
      (a b : Db) → Held sid.tenant scope value a → apply_op sid (claim scope value) a ≡ ok b → ⊥
  unfolding apply_op claim_unique map_err
  claim-fails a b held h = ground arith

  -- Once the operations with a claim are done, the value is held, unless it is released after it.
  ops-claim :
      (pre post : List ConstraintOp) (a b : Db)
      → apply_ops sid (pre ++ claim scope value ∷ post) a ≡ ok b
      → All (Spares scope value) post
      → Held sid.tenant scope value b
  unfolding apply_ops
  ops-claim [] post a b h k =
      let (c, one, rest) = bind-ok (apply_op sid (claim scope value) a) (apply_ops sid post) h in
      ops-Held post c b rest k (claim-Held a c one)
  ops-claim (o ∷ pre) post a b h k =
      let (c, one, rest) =
        bind-ok (apply_op sid o a) (apply_ops sid (pre ++ claim scope value ∷ post)) h in
      ops-claim pre post c b rest k

  -- The operations fail at the claim of a value that is held, if they get that far.
  ops-fail :
      (pre post : List ConstraintOp) (a b : Db)
      → apply_ops sid (pre ++ claim scope value ∷ post) a ≡ ok b
      → All (Spares scope value) pre
      → Held sid.tenant scope value a
      → ⊥
  unfolding apply_ops
  ops-fail [] post a b h k held =
      let (c, one, rest) = bind-ok (apply_op sid (claim scope value) a) (apply_ops sid post) h in
      claim-fails a c held one
  ops-fail (o ∷ pre) post a b h (k, ks) held =
      let (c, one, rest) =
        bind-ok (apply_op sid o a) (apply_ops sid (pre ++ claim scope value ∷ post)) h in
      ops-fail pre post c b rest ks (op-Held o a c one k held)

module _ (w : Wire) where
  events-claims :
      (sid : StreamId) (expected : ℕ) (at : Text) (i : ℕ) (evs : List EventToAppend) (l m : Loop)
      → append_events w sid expected at i evs l ≡ ok m
      → m.db.claims ≡ l.db.claims
  unfolding append_events
  events-claims sid expected at i [] l m h = let same : l ≡ m = cc in rw (← same) refl
  events-claims sid expected at i (ev ∷ evs) l m h =
      let (n, one, rest) =
        bind-ok (append_event w sid expected at i ev l)
          (append_events w sid expected at (suc i) evs) h in
      let s = append_event-Step w sid expected at i ev l n one in
      events-claims sid expected at (suc i) evs n m rest
      ∙ insert_outbox-claims sid.tenant s.position ev.event_id s.mid n.db s.queued
      ∙ s.inserted.claims

  -- The claims that a transaction commits are those that its constraint operations leave.
  tx-claims :
      (now : Time) (p : AppendParams) (a b : Db) (r : AppendResult)
      → append_tx w now p a ≡ ok (r, b)
      → (c : Db) × (apply_ops p.stream_id p.constraints a ≡ ok c) × (b.claims ≡ c.claims)
  unfolding append_tx
  tx-claims now p a b r h =
      let at = w.format_time now in
      let (c, claims, h₁) = bind-ok (apply_ops p.stream_id p.constraints a) _ h in
      let (l, ran, h₂) =
        bind-ok
          (append_events w p.stream_id p.expected_version at 0 p.events (first_pass p.stream_id c))
          _ h₁ in
      let (d, stored, h₃) = bind-ok (write_state w p at l.db) _ h₂ in
      let final : d ≡ b = cc in
      (
        c,
        claims,
        ap (λ (z : Db). z.claims) (sym final)
            ∙ write_state-claims w p at l.db d stored
            ∙ events-claims p.stream_id p.expected_version at 0 p.events (first_pass p.stream_id c)
                l ran,
      )

  module _ (scope value : Text) (pre post : List ConstraintOp) where
    append-Held :
        (now : Time) (p : AppendParams) (db : Db) (r : AppendResult)
        → p.constraints ≡ pre ++ claim scope value ∷ post
        → All (Spares scope value) post
        → (append w now p db).0 ≡ ok r
        → Held p.stream_id.tenant scope value (append w now p db).1
    append-Held now p db r ops k done = elim (append-Settled w now p db) [
      | inl (e, failed, _) ↦ absurd (ground arith)
      | inr (r', _, _, _, tx) ↦
          let (c, claims, same) = tx-claims now p db (append w now p db).1 r' tx in
          let held =
            ops-claim p.stream_id scope value pre post db c
              (subst (λ os. apply_ops p.stream_id os db ≡ ok c) ops claims) k in
          subst (λ cs. any_row (same_claim p.stream_id.tenant scope value) cs ≡ true) (sym same)
            held
    ]

    append-refused :
        (now : Time) (p : AppendParams) (db : Db)
        → p.constraints ≡ pre ++ claim scope value ∷ post
        → All (Spares scope value) pre
        → Held p.stream_id.tenant scope value db
        → (e : Error) × ((append w now p db).0 ≡ err e) × ((append w now p db).1 ≡ db)
    append-refused now p db ops k held = elim (append-Settled w now p db) [
      | inl (e, failed, same) ↦ (e, failed, same)
      | inr (r', _, _, _, tx) ↦
          let (c, claims, _) = tx-claims now p db (append w now p db).1 r' tx in
          absurd (
            ops-fail p.stream_id scope value pre post db c
              (subst (λ os. apply_ops p.stream_id os db ≡ ok c) ops claims) k held)
    ]

  -- Of two appends for one tenant, to whatever streams, that claim the same value in the same
  -- scope, the second fails and changes nothing if the first succeeded, where the first releases
  -- the value at no place after its claim and the second at none before its own.
  pub append-claim_race :
      (scope value : Text) (pre post pre' post' : List ConstraintOp) (now now' : Time)
      (p q : AppendParams) (db : Db) (r : AppendResult)
      → p.constraints ≡ pre ++ claim scope value ∷ post
      → q.constraints ≡ pre' ++ claim scope value ∷ post'
      → All (Spares scope value) post
      → All (Spares scope value) pre'
      → q.stream_id.tenant ≡ p.stream_id.tenant
      → (append w now p db).0 ≡ ok r
      → (e : Error) × ((append w now' q (append w now p db).1).0 ≡ err e)
        × ((append w now' q (append w now p db).1).1 ≡ (append w now p db).1)
  append-claim_race scope value pre post pre' post' now now' p q db r first second k k' t done =
      append-refused scope value pre' post' now' q (append w now p db).1 second k' (
        subst (λ z. Held z scope value (append w now p db).1) (sym t)
          (append-Held scope value pre post now p db r first k done))
