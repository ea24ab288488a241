-- ===== src/Sqlite/Sound.antt =====
-- Well-formed tables of events: the rows of each stream have the versions 1, 2, … in order, each
-- can be read, and their hashes form the chain of es/chain.go.
use eventstore.Base.{
  ℕ, suc, ◌+◌, ◌<◌, ◌≡◌, refl, ap, some, List, [], ◌∷◌, ◌++◌, Text, ok, err, ◌>>=◌, arith, ◌==◌,
  if◌then◌else◌, length, where_rows, le→ltb,
}
use eventstore.Es.Error.{Result, plain}
use eventstore.Es.Envelope.{Envelope}
use eventstore.Es.Wire.{Wire, HasDigests}
use eventstore.Es.Chain.{zero_hash, canonical_envelope_bytes, compute_chain_hash}
use eventstore.Es.Chain.Verify.{Chained}
use eventstore.Sqlite.Tables.{
  Db, EventRow, in_stream, top_row, insert_by_version, order_by_version, last_stream_hash, hash_of,
}
use eventstore.Sqlite.Append.{or_zero}
use eventstore.Sqlite.Read.{row_to_envelope, collect}

abbrev pub rows_of : Text → Text → Db → List EventRow
rows_of t s db = where_rows (in_stream t s) db.events

abbrev pub last_hash : Text → List EventRow → Text
last_hash prev [] = prev
last_hash prev (r ∷ rs) = last_hash r.hash rs

module _ (w : Wire) where
  -- The row after `k` rows of its stream, the last of which has the hash `prev`.
  pub record RowOk (prev : Text) (k : ℕ) (r : EventRow) : Type 0 where
    pub env : Envelope
    pub reads : row_to_envelope w r ≡ ok env
    pub same_hash : env.hash ≡ r.hash
    pub in_turn : r.version ≡ suc k
    pub linked : compute_chain_hash w prev env ≡ ok env.hash

  abbrev pub StreamOk : Text → ℕ → List EventRow → Type 0
  StreamOk prev k [] = Unit
  StreamOk prev k (r ∷ rs) = RowOk prev k r × StreamOk r.hash (suc k) rs

  abbrev pub IsSound : Db → Type 0
  IsSound db = (t s : Text) → StreamOk zero_hash 0 (rows_of t s db)

  pub StreamOk-snoc :
      (prev : Text) (k : ℕ) (rs : List EventRow) (r : EventRow)
      → StreamOk prev k rs
      → RowOk (last_hash prev rs) (k + length rs) r
      → StreamOk prev k (rs ++ r ∷ [])
  StreamOk-snoc prev k [] r h ok' = (subst_k (omega arith) ok', tt)
    where
      subst_k : {a b : ℕ} → a ≡ b → RowOk prev a r → RowOk prev b r
      subst_k e x = rw e at x
  StreamOk-snoc prev k (x ∷ rs) r h ok' =
      (h.0, StreamOk-snoc x.hash (suc k) rs r h.1 (shift (omega arith) ok'))
    where
      shift : {a b : ℕ} → a ≡ b → RowOk (last_hash x.hash rs) a r → RowOk (last_hash x.hash rs) b r
      shift e y = rw e at y

  -- The row with the greatest version is the last one.
  pub top_row-last :
      (prev : Text) (k : ℕ) (r : EventRow) (rs : List EventRow)
      → StreamOk prev k (r ∷ rs)
      → (t : EventRow) × (top_row (r ∷ rs) ≡ some t)
        × (k < t.version)
        × (t.hash ≡ last_hash prev (r ∷ rs))
  unfolding top_row
  top_row-last prev k r [] h = (r, refl, omega (arith, h.0.in_turn), refl)
  top_row-last prev k r (x ∷ rs) h =
      let (t, e, above, hash) = top_row-last r.hash (suc k) x rs h.1 in
      (t, rw (e, le→ltb t.version r.version (omega (arith, h.0.in_turn))), omega arith, hash)

  -- Rows in the order of their versions are ordered already.
  insert-first :
      (prev : Text) (k : ℕ) (r : EventRow) (rs : List EventRow)
      → StreamOk prev k (r ∷ rs)
      → insert_by_version r rs ≡ r ∷ rs
  unfolding insert_by_version
  insert-first prev k r [] h = refl
  insert-first prev k r (x ∷ rs) h =
      rw (le→ltb x.version r.version (omega (arith, h.0.in_turn, h.1.0.in_turn)))

  pub order_by_version-id :
      (prev : Text) (k : ℕ) (rs : List EventRow) → StreamOk prev k rs → order_by_version rs ≡ rs
  unfolding order_by_version
  order_by_version-id prev k [] h = refl
  order_by_version-id prev k (r ∷ rs) h =
      rw (order_by_version-id r.hash (suc k) rs h.1) (insert-first prev k r rs h)

  -- Such rows are read as envelopes that form a chain.
  pub collect-Chained :
      (prev : Text) (k : ℕ) (rs : List EventRow)
      → StreamOk prev k rs
      → (es : List Envelope) × (collect w rs ≡ ok es) × Chained w prev es × (length es ≡ length rs)
  unfolding collect
  collect-Chained prev k [] h = ([], refl, tt, refl)
  collect-Chained prev k (r ∷ rs) h =
      let (es, e, chained, len) = collect-Chained r.hash (suc k) rs h.1 in
      (h.0.env ∷ es, rw (h.0.reads, e), (h.0.linked, rw h.0.same_hash chained), ap suc len)

  module _ (d : HasDigests w) where
    digest_case :
        (prev : Text) (e : Envelope) (r : Result Text) (h : Text)
        → (if length prev == 32 then (r >>= λ b. ok (w.sha256 (prev ++ b))) else err plain) ≡ ok h
        → length h ≡ 32
    digest_case prev e (err x) h k = absurd (ground arith)
    digest_case prev e (ok b) h k = ground (arith, d.digest_length (prev ++ b))

    pub length-hash :
        (prev : Text) (e : Envelope) (h : Text) → compute_chain_hash w prev e ≡ ok h → length h ≡ 32
    unfolding compute_chain_hash
    length-hash prev e h k = digest_case prev e (canonical_envelope_bytes w e) h k

    pub length-last_hash :
        (prev : Text) (k : ℕ) (rs : List EventRow)
        → StreamOk prev k rs
        → length prev ≡ 32
        → length (last_hash prev rs) ≡ 32
    length-last_hash prev k [] h l = l
    length-last_hash prev k (r ∷ rs) h l =
        length-last_hash r.hash (suc k) rs h.1
          (rw (← h.0.same_hash) (length-hash prev h.0.env h.0.env.hash h.0.linked))

    or_zero-id : (h : Text) → length h ≡ 32 → or_zero h ≡ h
    or_zero-id [] l = absurd (omega arith)
    or_zero-id (b ∷ h) l = refl

    top-case :
        (rs : List EventRow)
        → StreamOk zero_hash 0 rs
        → or_zero (hash_of (top_row rs)) ≡ last_hash zero_hash rs
    unfolding top_row
    top-case [] h = refl
    top-case (r ∷ rs) h =
        let (t, e, above, hash) = top_row-last zero_hash 0 r rs h in
        let long = length-last_hash zero_hash 0 (r ∷ rs) h refl in
        rw (e, hash) (or_zero-id (last_hash r.hash rs) long)

    -- The hash that an append starts from is that of the stream's last row.
    pub last_stream_hash-last :
        (t s : Text) (db : Db)
        → IsSound db
        → or_zero (last_stream_hash t s db) ≡ last_hash zero_hash (rows_of t s db)
    unfolding last_stream_hash
    last_stream_hash-last t s db h = top-case (rows_of t s db) (h t s)
