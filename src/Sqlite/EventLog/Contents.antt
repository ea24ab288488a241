-- ===== src/Sqlite/EventLog/Contents.antt =====
-- The contents of one stream while an append (adapters/storage/sqlite/append.go) runs.
use eventstore.Base.{
  ℕ, suc, ◌+◌, ◌^◌, ◌<◌, ◌≡◌, refl, sym, ap, ◌∙◌, subst, Bool, true, false, ◌&&◌, List, [], ◌∷◌,
  ◌++◌, map, Text, text_eq, ok, bind-ok, arith, if◌then◌else◌, length, where_rows, append-nil,
  append_assoc,
}
use eventstore.Es.StreamId.{StreamId, validate, canonical}
use eventstore.Es.Envelope.{Envelope, EventToAppend, Time}
use eventstore.Es.Wire.{Wire, RoundTrips}
use eventstore.Sqlite.Tables.{Db, EventRow, in_stream}
use eventstore.Sqlite.Read.{row_to_envelope, collect}
use eventstore.Sqlite.Sound.{rows_of}
use eventstore.Sqlite.Append.{Loop, u64, append_event, append_events, event_row, chain_env}
use eventstore.Sqlite.Append.Sound.{
  Step, append_event-Step, row_to_envelope-event_row, rows_of-snoc, new_env,
}
use eventstore.Sqlite.EventLog.{Recorded, recorded, view}

map-append {ℓ κ} :
    {A : Type ℓ} {B : Type κ} (f : A → B) (xs ys : List A) → map f (xs ++ ys) ≡ map f xs ++ map f ys
map-append f [] ys = refl
map-append f (x ∷ xs) ys = ap (◌∷◌ (f x)) (map-append f xs ys)

module _ (w : Wire) where
  -- The rows of a stream are read as these events.
  pub record Contents (t s : Text) (db : Db) (xs : List Recorded) : Type 0 where
    pub envs : List Envelope
    pub reads : collect w (rows_of t s db) ≡ ok envs
    pub views : map view envs ≡ xs

  collect-snoc :
      (rs : List EventRow) (r : EventRow) (es : List Envelope) (e : Envelope)
      → collect w rs ≡ ok es
      → row_to_envelope w r ≡ ok e
      → collect w (rs ++ r ∷ []) ≡ ok (es ++ e ∷ [])
  unfolding collect
  collect-snoc [] r es e h k =
      let none_yet : [] ≡ es = cc in rw k (ap (λ (x : List Envelope). ok (x ++ e ∷ [])) none_yet)
  collect-snoc (x ∷ rs) r es e h k =
      let (f, hf, rest) = bind-ok (row_to_envelope w x) _ h in
      let (fs, hfs, last) = bind-ok (collect w rs) _ rest in
      let whole : f ∷ fs ≡ es = cc in
      rw (hf, collect-snoc rs r fs e hfs k) (ap (λ (z : List Envelope). ok (z ++ e ∷ [])) whole)

  pub Contents-events :
      (t s : Text) (a b : Db) (xs : List Recorded)
      → b.events ≡ a.events
      → Contents t s a xs
      → Contents t s b xs
  Contents-events t s a b xs e c = record {
    envs = c.envs;
    reads = ap (λ es. collect w (where_rows (in_stream t s) es)) e ∙ c.reads;
    views = c.views;
  }

  module _ (rt : RoundTrips w) (t s : Text) where
    -- A row is added to the stream (t, s), or to another one.
    snoc-Contents :
        (a b : Db) (xs : List Recorded) (row : EventRow) (e : Envelope) (mine : Bool)
        → in_stream t s row ≡ mine
        → b.events ≡ a.events ++ row ∷ []
        → row_to_envelope w row ≡ ok e
        → Contents t s a xs
        → Contents t s b (xs ++ (if mine then view e ∷ [] else []))
    snoc-Contents a b xs row e false other events reads c =
        let same =
          rows_of-snoc w rt t s a b row events
          ∙ ap (λ x. rows_of t s a ++ (if x then row ∷ [] else [])) other
          ∙ append-nil (rows_of t s a) in
        record {
          envs = c.envs;
          reads = ap (collect w) same ∙ c.reads;
          views = c.views ∙ sym (append-nil xs);
        }
    snoc-Contents a b xs row e true mine events reads c =
        let longer =
          rows_of-snoc w rt t s a b row events
          ∙ ap (λ x. rows_of t s a ++ (if x then row ∷ [] else [])) mine in
        record {
          envs = c.envs ++ e ∷ [];
          reads = ap (collect w) longer ∙ collect-snoc (rows_of t s a) row c.envs e c.reads reads;
          views = map-append view c.envs (e ∷ []) ∙ ap (λ z. z ++ view e ∷ []) c.views;
        }

    abbrev pub is_mine : StreamId → Bool
    is_mine sid = text_eq sid.tenant t && text_eq (canonical sid) s

    step-Contents :
        (sid : StreamId) (expected i : ℕ) (now : Time) (ev : EventToAppend) (l l' : Loop)
        (xs : List Recorded)
        → validate sid ≡ ok tt
        → expected + i + 1 < 2 ^ 63
        → append_event w sid expected (w.format_time now) i ev l ≡ ok l'
        → Contents t s l.db xs
        → Contents t s l'.db
            (xs ++ (if is_mine sid then recorded now (expected + i) (ev ∷ []) else []))
    unfolding event_row recorded chain_env
    step-Contents sid expected i now ev l l' xs valid bound run c =
        let version : u64 (expected + i + 1) ≡ suc (expected + i) = omega arith in
        let st =
          subst (λ v. Step w sid v (w.format_time now) ev l l') version
            (append_event-Step w sid expected (w.format_time now) i ev l l' run) in
        let row : EventRow =
          record (event_row w sid (suc (expected + i)) ev st.actor (w.format_time now) l'.prev_hash
            l.prev_hash) { global_position = l.db.sequence + 1 } in
        snoc-Contents l.db l'.db xs row
          (new_env w sid (suc (expected + i)) ev now (l.db.sequence + 1) l'.prev_hash l.prev_hash)
          (is_mine sid) refl (st.events ∙ st.inserted.events)
          (row_to_envelope-event_row w rt sid (suc (expected + i)) ev st.actor now
            (l.db.sequence + 1) l'.prev_hash l.prev_hash valid st.encoded)
          c

    join-recorded :
        (mine : Bool) (xs : List Recorded) (now : Time) (v v' : ℕ) (ev : EventToAppend)
        (evs : List EventToAppend)
        → v' ≡ suc v
        → (xs ++ (if mine then recorded now v (ev ∷ []) else []))
            ++ (if mine then recorded now v' evs else [])
          ≡ xs ++ (if mine then recorded now v (ev ∷ evs) else [])
    unfolding recorded
    join-recorded true xs now v v' ev evs e =
        append_assoc xs _ (recorded now v' evs)
        ∙ ap
            (λ n.
              xs ++ record { version = suc v; event = ev; recorded_at = now } ∷ recorded now n evs)
            e
    join-recorded false xs now v v' ev evs e = append-nil (xs ++ [])

    pub loop-Contents :
        (sid : StreamId) (expected i : ℕ) (now : Time) (evs : List EventToAppend) (l l' : Loop)
        (xs : List Recorded)
        → validate sid ≡ ok tt
        → expected + i + length evs < 2 ^ 63
        → append_events w sid expected (w.format_time now) i evs l ≡ ok l'
        → Contents t s l.db xs
        → Contents t s l'.db (xs ++ (if is_mine sid then recorded now (expected + i) evs else []))
    unfolding append_events recorded
    loop-Contents sid expected i now [] l l' xs valid bound run c =
        let same : l ≡ l' = cc in
        subst (λ (m : Loop). Contents t s m.db (xs ++ (if is_mine sid then [] else []))) same
          (subst (Contents t s l.db) (sym (nothing_new (is_mine sid) xs)) c)
      where
        nothing_new : (b : Bool) (ys : List Recorded) → ys ++ (if b then [] else []) ≡ ys
        nothing_new true ys = append-nil ys
        nothing_new false ys = append-nil ys
    loop-Contents sid expected i now (ev ∷ evs) l l' xs valid bound run c =
        let (m, one, rest) =
          bind-ok (append_event w sid expected (w.format_time now) i ev l)
            (append_events w sid expected (w.format_time now) (suc i) evs) run in
        let here = step-Contents sid expected i now ev l m xs valid (omega arith) one c in
        let there =
          loop-Contents sid expected (suc i) now evs m l' _ valid (omega arith) rest here in
        subst (Contents t s l'.db)
          (join-recorded (is_mine sid) xs now (expected + i) (expected + suc i) ev evs
            (omega arith))
          there
