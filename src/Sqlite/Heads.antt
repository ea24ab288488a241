-- ===== src/Sqlite/Heads.antt =====
-- What the query PendingOutboxWithEnvelope selects: the head of each stream.
use eventstore.Base.{
  ℕ, zero, suc, ◌≤◌, ◌≡◌, refl, Bool, true, false, ◌&&◌, Option, none, some, List, [], ◌∷◌, Text,
  arith, ltb, if◌then◌else◌, take, where_rows, All, All-append, map, ==_iff, ltb→le, ltb→lt,
}
use eventstore.Sqlite.Tables.{Db, EventRow, OutboxEntry, same_entry}
use eventstore.Sqlite.Outbox.{
  lesser, joined, same_join, mark_outbox_published, update_outbox, Joined, is_live, is_due, is_null,
  is_version, is_pending, same_stream, join_events, least_version, head_version, insert_joined,
  order_joined, pending_outbox_with_envelope,
}

module _ {ℓ κ} {A : Type ℓ} (P : A → Type κ) where
  All-take : (n : ℕ) (xs : List A) → All P xs → All P (take n xs)
  All-take zero xs h = tt
  All-take (suc n) [] h = tt
  All-take (suc n) (x ∷ xs) h = (h.0, All-take n xs h.1)

All-where : {A : Type 0} (p : A → Bool) (xs : List A) → All (λ x. p x ≡ true) (where_rows p xs)
unfolding where_rows
All-where p [] = tt
All-where p (x ∷ xs) = where_case (p x) refl (All-where p xs)
  where
    where_case :
        (b : Bool)
        → p x ≡ b
        → All (λ y. p y ≡ true) (where_rows p xs)
        → All (λ y. p y ≡ true) (if b then x ∷ where_rows p xs else where_rows p xs)
    where_case true h rest = (h, rest)
    where_case false h rest = rest

module _ (P : Joined → Type 0) where
  All-insert : (j : Joined) (js : List Joined) → P j → All P js → All P (insert_joined j js)
  unfolding insert_joined
  All-insert j [] h hs = (h, tt)
  All-insert j (x ∷ xs) h hs =
      insert_case (ltb x.entry.global_position j.entry.global_position) (All-insert j xs h hs.1)
    where
      insert_case :
          (b : Bool)
          → All P (insert_joined j xs)
          → All P (if b then x ∷ insert_joined j xs else j ∷ x ∷ xs)
      insert_case true rest = (hs.0, rest)
      insert_case false rest = (h, hs)

  All-order : (js : List Joined) → All P js → All P (order_joined js)
  unfolding order_joined
  All-order [] h = tt
  All-order (j ∷ js) h = All-insert j (order_joined js) h.0 (All-order js h.1)

  All-map :
      (Q : Joined → Type 0) → ((j : Joined) → P j → Q j) → (js : List Joined) → All P js → All Q js
  All-map Q f [] h = tt
  All-map Q f (j ∷ js) h = (f j h.0, All-map Q f js h.1)

  All-unwhere :
      (p : Joined → Bool) (js : List Joined)
      → All P (where_rows p js)
      → All (λ j. p j ≡ true → P j) js
  unfolding where_rows
  All-unwhere p [] h = tt
  All-unwhere p (j ∷ js) h = let (now, rest) = unwhere_case (p j) h in (now, All-unwhere p js rest)
    where
      unwhere_case :
          (b : Bool)
          → All P (if b then j ∷ where_rows p js else where_rows p js)
          → (b ≡ true → P j) × All P (where_rows p js)
      unwhere_case true h = (λ e. h.0, h.1)
      unwhere_case false h = (λ e. absurd (ground arith), h)

-- A lower bound on the versions of rows; no bound means no rows.
abbrev Below : Option ℕ → List Joined → Type 0
Below none js = js ≡ []
Below (some v) js = All (λ j. v ≤ j.event.version) js

Below-weaken : (v u : ℕ) (js : List Joined) → v ≤ u → Below (some u) js → Below (some v) js
Below-weaken v u [] h b = tt
Below-weaken v u (j ∷ js) h b = (omega (arith, b.0), Below-weaken v u js h b.1)

lesser-Below :
    (j : Joined) (js : List Joined) (o : Option ℕ)
    → Below o js
    → Below (lesser j.event.version o) (j ∷ js)
lesser-Below j js none b = (omega arith, rw b tt)
lesser-Below j js (some u) b = lesser_case (ltb u j.event.version) refl
  where
    lesser_case :
        (x : Bool)
        → ltb u j.event.version ≡ x
        → Below (if x then some u else some j.event.version) (j ∷ js)
    lesser_case true h = (omega (arith, ltb→lt u j.event.version h), b)
    lesser_case false h =
        (omega arith, Below-weaken j.event.version u js (ltb→le u j.event.version h) b)

least-Below : (js : List Joined) → Below (least_version js) js
unfolding least_version
least-Below [] = refl
least-Below (j ∷ js) = lesser-Below j js (least_version js) (least-Below js)

-- A row that the drain may deliver: it is unpublished, not in the DLQ and due, and no row of its
-- stream that is unpublished and not in the DLQ has a smaller version.
pub record IsHead (now : Text) (max_attempts : ℕ) (js : List Joined) (j : Joined) : Type 0 where
  pub live : is_live max_attempts j ≡ true
  pub due : is_due now j.entry.next_attempt_at ≡ true
  pub first :
      All
        (λ q.
          (same_stream j.event q && is_live max_attempts q) ≡ true
          → j.event.version ≤ q.event.version)
        js

module _ (now : Text) (max_attempts : ℕ) (js : List Joined) where
  version-Below :
      (v : ℕ) (o : Option ℕ) (qs : List Joined)
      → is_version v o ≡ true
      → Below o qs
      → Below (some v) qs
  version-Below v none qs h b = absurd (ground arith)
  version-Below v (some u) qs h b = Below-weaken v u qs (omega (arith, (==_iff u v).0 h)) b

  pending-IsHead :
      (j : Joined) → is_pending now max_attempts js j ≡ true → IsHead now max_attempts js j
  unfolding head_version
  pending-IsHead j h =
      let alive : Joined → Bool = λ q. same_stream j.event q && is_live max_attempts q in
      record {
        live = ground arith;
        due = ground arith;
        first =
            All-unwhere (λ q. j.event.version ≤ q.event.version) alive js
              (version-Below j.event.version (head_version max_attempts j.event js)
                (where_rows alive js) (ground arith) (least-Below (where_rows alive js)));
      }

-- Each row that PendingOutboxWithEnvelope returns is the head of its stream, and is due.
pub pending_outbox_with_envelope-IsHead :
    (now : Text) (max_attempts limit : ℕ) (db : Db)
    → All
        (IsHead now max_attempts (join_events db.outbox db.events))
        (pending_outbox_with_envelope now max_attempts limit db)
unfolding pending_outbox_with_envelope
pending_outbox_with_envelope-IsHead now max_attempts limit db =
    let js = join_events db.outbox db.events in
    let chosen = where_rows (is_pending now max_attempts js) js in
    let heads =
      All-map (λ j. is_pending now max_attempts js j ≡ true) (IsHead now max_attempts js)
        (pending-IsHead now max_attempts js) chosen
        (All-where (is_pending now max_attempts js) js) in
    All-take (IsHead now max_attempts js) limit (order_joined chosen)
      (All-order (IsHead now max_attempts js) chosen heads)

-- Every row of the join that an UPDATE of the outbox gives has what the updated entries have.
module _ (Q : OutboxEntry → Type 0) (f : OutboxEntry → OutboxEntry)
    (holds : (o : OutboxEntry) → Q (f o)) where
  All-joined :
      (o : OutboxEntry) (es : List EventRow) → All (λ j. Q j.entry) (map (λ e. joined (f o) e) es)
  All-joined o [] = tt
  All-joined o (e ∷ es) = (holds o, All-joined o es)

  All-join_events :
      (os : List OutboxEntry) (es : List EventRow)
      → All (λ j. Q j.entry) (join_events (map f os) es)
  unfolding join_events
  All-join_events [] es = tt
  All-join_events (o ∷ os) es =
      All-append (λ j. Q j.entry) (map (joined (f o)) (where_rows (same_join (f o)) es))
        (join_events (map f os) es) (All-joined o (where_rows (same_join (f o)) es))
        (All-join_events os es)

All-chosen :
    (P : Joined → Type 0) (p : Joined → Bool) (js : List Joined)
    → All P js
    → All P (where_rows p js)
unfolding where_rows
All-chosen P p [] h = tt
All-chosen P p (j ∷ js) h = chosen_case (p j) (All-chosen P p js h.1)
  where
    chosen_case :
        (b : Bool)
        → All P (where_rows p js)
        → All P (if b then j ∷ where_rows p js else where_rows p js)
    chosen_case true rest = (h.0, rest)
    chosen_case false rest = rest

abbrev Settled : Text → ℕ → OutboxEntry → Type 0
Settled t gp o = same_entry t gp o ≡ true → is_null o.published_at ≡ false

marked_case :
    (sql_now t : Text) (gp : ℕ) (o : OutboxEntry) (b : Bool)
    → same_entry t gp o ≡ b
    → Settled t gp (if b then record o { published_at = some sql_now } else o)
marked_case sql_now t gp o true h = λ e. refl
marked_case sql_now t gp o false h = λ e. absurd (ground arith)

marked-Settled :
    (sql_now t : Text) (gp : ℕ) (o : OutboxEntry)
    → Settled t gp (if same_entry t gp o then record o { published_at = some sql_now } else o)
marked-Settled sql_now t gp o = marked_case sql_now t gp o (same_entry t gp o) refl

All-both :
    (P Q R : Joined → Type 0)
    → ((j : Joined) → P j → Q j → R j)
    → (js : List Joined) → All P js
    → All Q js
    → All R js
All-both P Q R f [] h k = tt
All-both P Q R f (j ∷ js) h k = (f j h.0 k.0, All-both P Q R f js h.1 k.1)

-- After MarkOutboxPublished, PendingOutboxWithEnvelope does not return that row at any later time.
pub mark_outbox_published-settles :
    (sql_now now t : Text) (gp max_attempts limit : ℕ) (db : Db)
    → All
        (λ j. same_entry t gp j.entry ≡ false)
        (pending_outbox_with_envelope now max_attempts limit
          (mark_outbox_published sql_now t gp db))
unfolding pending_outbox_with_envelope mark_outbox_published update_outbox
mark_outbox_published-settles sql_now now t gp max_attempts limit db =
    let f : OutboxEntry → OutboxEntry =
      λ o. if same_entry t gp o then record o { published_at = some sql_now } else o in
    let js = join_events (map f db.outbox) db.events in
    let p = is_pending now max_attempts js in
    let chosen = where_rows p js in
    let settled =
      All-chosen (λ j. Settled t gp j.entry) p js
        (All-join_events (Settled t gp) f (marked-Settled sql_now t gp) db.outbox db.events) in
    let Left : Joined → Type 0 = λ j. same_entry t gp j.entry ≡ false in
    let left =
      All-both (λ j. p j ≡ true) (λ j. Settled t gp j.entry) Left (λ j h k. ground (arith, k))
        chosen (All-where p js) settled in
    All-take Left limit (order_joined chosen) (All-order Left chosen left)
