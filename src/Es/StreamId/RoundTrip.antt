-- ===== src/Es/StreamId/RoundTrip.antt =====
-- The storage form of a stream id determines its type and id (es/streamid.go).
use eventstore.Base.{
  ℕ, zero, suc, ◌+◌, ◌≤◌, ◌<◌, ◌≡◌, ◌≢◌, refl, ap, true, false, Option, none, some, [], ◌∷◌, ◌++◌,
  Text, ok, arith, length, take, drop, ◌==◌, length-append, add-one,
}
use eventstore.Es.StreamId.{
  StreamId, canonical_sep, slug_first, slug_next, all_next, match_slug, validate, new_stream_id,
  canonical, index_byte, split_at, parse_canonical,
}

-- A slug holds no separator.
next_ne_sep : (c : ℕ) → slug_next c ≡ true → (c == canonical_sep) ≡ false
unfolding slug_next
next_ne_sep c h = ground arith

first_ne_sep : (c : ℕ) → slug_first c ≡ true → (c == canonical_sep) ≡ false
unfolding slug_first
first_ne_sep c h = ground arith

index-next :
    (s rest : Text)
    → all_next s ≡ true
    → index_byte (s ++ canonical_sep ∷ rest) canonical_sep ≡ some (length s)
unfolding all_next index_byte
index-next [] rest h = refl
index-next (c ∷ s) rest h = ground (arith, next_ne_sep c, index-next s rest)

index-slug :
    (s rest : Text)
    → match_slug s ≡ true
    → (index_byte (s ++ canonical_sep ∷ rest) canonical_sep ≡ some (length s)) × (length s ≢ 0)
unfolding match_slug index_byte
index-slug [] rest h = ground arith
index-slug (c ∷ s) rest h = ground (arith, first_ne_sep c, index-next s rest)

take-length : (s rest : Text) → take (length s) (s ++ rest) ≡ s
take-length [] rest = refl
take-length (c ∷ s) rest = ap (◌∷◌ c) (take-length s rest)

drop-length : (s : Text) (c : ℕ) (rest : Text) → drop (suc (length s)) (s ++ c ∷ rest) ≡ rest
drop-length [] c rest = refl
drop-length (d ∷ s) c rest = drop-length s c rest

pub validate-ok :
    (s : StreamId) → validate s ≡ ok tt → (match_slug s.typ ≡ true) × (match_slug s.id ≡ true)
unfolding validate
validate-ok s h = ground arith

slug-pos : (s : Text) → match_slug s ≡ true → 1 ≤ length s
unfolding match_slug
slug-pos [] h = ground arith
slug-pos (c ∷ s) h = omega arith

split-at_inner :
    (t c : Text) (i : ℕ)
    → 1 ≤ i
    → suc i < length c
    → split_at t c (some i) ≡ new_stream_id t (take i c) (drop (suc i) c)
unfolding split_at
split-at_inner t c i h k = rw add-one (ground arith)

new_stream_id-valid : (s : StreamId) → validate s ≡ ok tt → new_stream_id s.tenant s.typ s.id ≡ ok s
unfolding new_stream_id
new_stream_id-valid s h = rw h

-- Parsing the storage form of a valid stream id under its tenant gives that stream id back.
pub parse_canonical-canonical :
    (s : StreamId) → validate s ≡ ok tt → parse_canonical s.tenant (canonical s) ≡ ok s
unfolding parse_canonical canonical
parse_canonical-canonical s h =
    let slugs = validate-ok s h in
    let n = length s.typ in
    let long = length-append s.typ (canonical_sep ∷ s.id) in
    let one = slug-pos s.typ slugs.0 in
    let two = slug-pos s.id slugs.1 in
    let at = index-slug s.typ s.id slugs.0 in
    rw at.0 (
      rw (split-at_inner s.tenant (s.typ ++ canonical_sep ∷ s.id) n (omega arith) (omega arith)) (
        rw (take-length s.typ (canonical_sep ∷ s.id), drop-length s.typ canonical_sep s.id)
          (new_stream_id-valid s h)))

index-split : (c : Text) (b i : ℕ) → index_byte c b ≡ some i → take i c ++ b ∷ drop (suc i) c ≡ c
unfolding index_byte
index-split [] b i h = cc
index-split (d ∷ c) b zero h = ground arith
index-split (d ∷ c) b (suc i) h = ground (arith, index-split c b i)

new_stream_id-ok :
    (t typ id : Text) (s : StreamId)
    → new_stream_id t typ id ≡ ok s
    → (s.tenant ≡ t) × (s.typ ≡ typ) × (s.id ≡ id) × (validate s ≡ ok tt)
unfolding new_stream_id validate
new_stream_id-ok t typ id s h = ground arith

split-ok :
    (t c : Text) (s : StreamId) (o : Option ℕ)
    → ((i : ℕ) → o ≡ some i → take i c ++ canonical_sep ∷ drop (suc i) c ≡ c)
    → split_at t c o ≡ ok s
    → (s.tenant ≡ t) × (canonical s ≡ c) × (validate s ≡ ok tt)
unfolding split_at canonical
split-ok t c s none f h = cc
split-ok t c s (some i) f h =
    ground (arith, f i refl, add-one i, new_stream_id-ok t (take i c) (drop (i + 1) c) s)

-- What the parser accepts is the storage form of the valid stream id that it returns, under the
-- tenant that it was given.
pub canonical-parse_canonical :
    (t c : Text) (s : StreamId)
    → parse_canonical t c ≡ ok s
    → (s.tenant ≡ t) × (canonical s ≡ c) × (validate s ≡ ok tt)
unfolding parse_canonical
canonical-parse_canonical t c s h =
    split-ok t c s (index_byte c canonical_sep) (λ i. index-split c canonical_sep i) h

-- Two valid stream ids of one tenant with one storage form are the same.
pub canonical-injective :
    (s t : StreamId)
    → validate s ≡ ok tt
    → validate t ≡ ok tt
    → s.tenant ≡ t.tenant
    → canonical s ≡ canonical t
    → s ≡ t
canonical-injective s t hs ht e c =
    cc (parse_canonical-canonical s hs, parse_canonical-canonical t ht)
