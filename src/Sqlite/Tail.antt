-- ===== src/Sqlite/Tail.antt =====
-- ReadStream (adapters/storage/sqlite/read.go) on a well-formed table returns the end of a stream.
use eventstore.Base.{
  ℕ, zero, suc, ◌+◌, ◌≤◌, ◌≡◌, refl, sym, ap, ◌∙◌, Bool, List, [], ◌∷◌, Text, ok, arith, ltb, drop,
  where_rows, where_rows-where_rows, lt→ltb, le→ltb, zero-add,
}
use eventstore.Es.StreamId.{StreamId, validate, canonical}
use eventstore.Es.Wire.{Wire}
use eventstore.Es.Chain.{zero_hash}
use eventstore.Sqlite.Tables.{Db, EventRow, in_stream, read_stream_from_version}
use eventstore.Sqlite.Read.{read_stream, collect}
use eventstore.Sqlite.Sound.{rows_of, StreamOk, IsSound, order_by_version-id}

module _ (w : Wire) where
  later : ℕ → EventRow → Bool
  later from r = ltb from r.version

  where-all :
      (prev : Text) (k from : ℕ) (rs : List EventRow)
      → StreamOk w prev k rs
      → from ≤ k
      → where_rows (later from) rs ≡ rs
  unfolding where_rows later
  where-all prev k from [] h l = refl
  where-all prev k from (r ∷ rs) h l =
      rw (lt→ltb from r.version (omega (arith, h.0.in_turn)))
        (ap (◌∷◌ r) (where-all r.hash (suc k) from rs h.1 (omega arith)))

  where-drop :
      (prev : Text) (k m : ℕ) (rs : List EventRow)
      → StreamOk w prev k rs
      → where_rows (later (k + m)) rs ≡ drop m rs
  unfolding where_rows later
  where-drop prev k zero rs h = where-all prev k (k + 0) rs h (omega arith)
  where-drop prev k (suc m) [] h = refl
  where-drop prev k (suc m) (r ∷ rs) h =
      let moved : suc k + m ≡ k + suc m = omega arith in
      rw (le→ltb (k + suc m) r.version (omega (arith, h.0.in_turn)))
        (ap (λ n. where_rows (later n) rs) (sym moved) ∙ where-drop r.hash (suc k) m rs h.1)

  pub StreamOk-drop :
      (prev : Text) (k m : ℕ) (rs : List EventRow)
      → StreamOk w prev k rs
      → (p : Text) × (n : ℕ) × StreamOk w p n (drop m rs)
  StreamOk-drop prev k zero rs h = (prev, k, h)
  StreamOk-drop prev k (suc m) [] h = (prev, k, tt)
  StreamOk-drop prev k (suc m) (r ∷ rs) h = StreamOk-drop r.hash (suc k) m rs h.1

  -- Reading from a version on gives the rows after that many, in their order.
  pub read_stream-drop :
      (sid : StreamId) (from : ℕ) (db : Db)
      → IsSound w db
      → validate sid ≡ ok tt
      → read_stream w sid from db ≡ collect w (drop from (rows_of sid.tenant (canonical sid) db))
  unfolding read_stream read_stream_from_version later
  read_stream-drop sid from db h valid =
      let t = sid.tenant in
      let s = canonical sid in
      let rows = rows_of t s db in
      let kept =
        sym (where_rows-where_rows (in_stream t s) (later from) db.events)
        ∙ ap (λ n. where_rows (later n) rows) (sym (zero-add from))
        ∙ where-drop zero_hash 0 from rows (h t s) in
      let (p, n, good) = StreamOk-drop zero_hash 0 from rows (h t s) in
      rw (valid, kept) (ap (collect w) (order_by_version-id w p n (drop from rows) good))
