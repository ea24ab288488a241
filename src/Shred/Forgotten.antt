-- ===== src/Shred/Forgotten.antt =====
-- A subject that was forgotten (shred/shred.go over the table of adapters/storage/sqlite/shred.go)
-- stays so, whatever the process does afterwards.
use eventstore.Base.{
  ℕ, ◌≡◌, refl, ap, ◌∙◌, Bool, true, false, ◌⊎◌, inl, inr, Option, none, some, [], ◌∷◌, Text,
  text_eq, ok, err, arith,
}
use eventstore.Es.Error.{Error, Result, plain}
use eventstore.Es.Envelope.{Time}
use eventstore.Shred.Cache.{
  DekCache, cache_key, find_dek, get_dek, set_dek, forget_dek, find_dek-where_rows,
}
use eventstore.Shred.Field.{Aead}
use eventstore.Shred.Shredder.{
  ShredError, ShredResult, shredded, other, KeyStore, SubjectKey, World, stored_dek, ensure_stored,
  ensure_cached, ensure_subject_key, decrypt_stored, decrypt_cached,
}
use eventstore.Shred.SubjectTable.{
  SubjectRow, Table, find_subject, upsert_subject, shred_subject, marked, shredded_time, key_with,
  found_subject, get_subject_key, sqlite_subjects,
}

abbrev pub was_shredded : Option Text → Bool
was_shredded none = false
was_shredded (some []) = false
was_shredded (some (c ∷ t)) = true

abbrev pub has_shredded : Option SubjectRow → Bool
has_shredded none = false
has_shredded (some r) = was_shredded r.shredded_at

-- The row of the subject is shredded, and its key is not in the cache.
abbrev pub Gone : Text → Text → DekCache → Table → Type 0
Gone t s cache table =
    (find_dek (cache_key t s) cache ≡ none) × (has_shredded (find_subject t s table) ≡ true)

pub set_dek-Gone :
    (t s t' s' dek : Text) (cache : DekCache) (table : Table)
    → text_eq (cache_key t' s') (cache_key t s) ≡ false
    → Gone t s cache table
    → Gone t s (set_dek t' s' dek cache) table
unfolding set_dek forget_dek find_dek
set_dek-Gone t s t' s' dek cache table differ (h, k) =
    (rw differ (find_dek-where_rows (cache_key t s) (cache_key t' s') cache h), k)

pub upsert_subject-has_shredded :
    (t s t' s' wrapped now : Text) (version : ℕ) (table : Table)
    → has_shredded (find_subject t s table) ≡ true
    → has_shredded (find_subject t s (upsert_subject t' s' wrapped version now table)) ≡ true
unfolding find_subject upsert_subject
upsert_subject-has_shredded t s t' s' wrapped now version [] h = absurd (ground arith)
upsert_subject-has_shredded t s t' s' wrapped now version (r ∷ rs) h =
    ground (arith, upsert_subject-has_shredded t s t' s' wrapped now version rs)

-- A subject with a row is shredded by an UPDATE for it, and by no other one is it brought back.
pub shred_subject-has_shredded :
    (t s t' s' : Text) (c : ℕ) (now : Text) (table : Table)
    → has_shredded (find_subject t s table) ≡ true
    → has_shredded (find_subject t s (shred_subject t' s' (c ∷ now) table)) ≡ true
unfolding find_subject shred_subject
shred_subject-has_shredded t s t' s' c now [] h = absurd (ground arith)
shred_subject-has_shredded t s t' s' c now (r ∷ rs) h =
    ground (arith, shred_subject-has_shredded t s t' s' c now rs)

pub shred_subject-shreds :
    (t s : Text) (c : ℕ) (now : Text) (row : SubjectRow) (table : Table)
    → find_subject t s table ≡ some row
    → has_shredded (find_subject t s (shred_subject t s (c ∷ now) table)) ≡ true
unfolding find_subject shred_subject
shred_subject-shreds t s c now row [] h = absurd (ground arith)
shred_subject-shreds t s c now row (r ∷ rs) h =
    ground (arith, shred_subject-shreds t s c now row rs)

module _ (parse_time : Text → Result Time) where
  -- What the table says of a shredded subject: no key, be it for the mark or for a time that does
  -- not parse.
  abbrev Closed : ShredResult SubjectKey → Type 0
  Closed r =
      ((e : Error) × (r ≡ err (other e)))
      ⊎ ((row : SubjectKey) × (x : Time) × (r ≡ ok row) × (row.shredded_at ≡ some x))

  key_with-Closed :
      (r : SubjectRow) (created : Result Time) (x : Result (Option Time))
      → ((e : Error) × (x ≡ err e)) ⊎ ((y : Time) × (x ≡ ok (some y)))
      → Closed (key_with parse_time r created x)
  key_with-Closed r (err e) x h = inl (e, refl)
  key_with-Closed r (ok c) (err e) h = inl (e, refl)
  key_with-Closed r (ok c) (ok none) (inl (e, h)) = absurd (ground arith)
  key_with-Closed r (ok c) (ok none) (inr (y, h)) = absurd (ground arith)
  key_with-Closed r (ok c) (ok (some y)) h = inr (_, y, refl, refl)

  shredded_time-some :
      (c : ℕ) (t : Text) (r : Result Time)
      → parse_time (c ∷ t) ≡ r
      → ((e : Error) × (shredded_time parse_time (some (c ∷ t)) ≡ err e))
        ⊎ ((y : Time) × (shredded_time parse_time (some (c ∷ t)) ≡ ok (some y)))
  shredded_time-some c t (err e) h = inl (e, ap (marked parse_time) h)
  shredded_time-some c t (ok x) h = inr (x, ap (marked parse_time) h)

  time-Closed :
      (o : Option Text)
      → was_shredded o ≡ true
      → ((e : Error) × (shredded_time parse_time o ≡ err e))
        ⊎ ((y : Time) × (shredded_time parse_time o ≡ ok (some y)))
  time-Closed none h = absurd (ground arith)
  time-Closed (some []) h = absurd (ground arith)
  time-Closed (some (c ∷ t)) h = shredded_time-some c t (parse_time (c ∷ t)) refl

  found_subject-Closed :
      (o : Option SubjectRow) → has_shredded o ≡ true → Closed (found_subject parse_time o)
  found_subject-Closed none h = absurd (ground arith)
  found_subject-Closed (some r) h =
      key_with-Closed r (parse_time r.created_at) (shredded_time parse_time r.shredded_at)
        (time-Closed r.shredded_at h)

  module _ {K : Type 0} (kms : KeyStore K) (aead : Aead) where
    -- A call that fails and leaves the world as it was.
    abbrev pub Refused : World K Table → ShredResult Text × World K Table → Type 0
    Refused w out = (e : ShredError) × (out ≡ (err e, w))

    stored_dek-Refused :
        (now t s : Text) (e : ShredError) (row : SubjectKey) (o : Option Time) (x : Time)
        (w : World K Table)
        → o ≡ some x
        → Refused w (stored_dek kms (sqlite_subjects parse_time now) e t s row o w)
    stored_dek-Refused now t s e row none x w h = absurd (ground arith)
    stored_dek-Refused now t s e row (some y) x w h = (e, refl)

    ensure_stored-Refused :
        (now t s : Text) (fresh : Result Text) (r : ShredResult SubjectKey) (w : World K Table)
        → Closed r
        → Refused w (ensure_stored kms (sqlite_subjects parse_time now) t s fresh r w)
    ensure_stored-Refused now t s fresh r w (inl (e, h)) =
        (other e, ap (λ z. ensure_stored kms (sqlite_subjects parse_time now) t s fresh z w) h)
    ensure_stored-Refused now t s fresh r w (inr (row, x, h, gone)) =
        let (e, out) = stored_dek-Refused now t s (other plain) row row.shredded_at x w gone in
        (e, ap (λ z. ensure_stored kms (sqlite_subjects parse_time now) t s fresh z w) h ∙ out)

    decrypt_stored-Refused :
        (now t s : Text) (r : ShredResult SubjectKey) (w : World K Table)
        → Closed r
        → Refused w (decrypt_stored kms (sqlite_subjects parse_time now) t s r w)
    decrypt_stored-Refused now t s r w (inl (e, h)) =
        (other e, ap (λ z. decrypt_stored kms (sqlite_subjects parse_time now) t s z w) h)
    decrypt_stored-Refused now t s r w (inr (row, x, h, gone)) =
        let (e, out) = stored_dek-Refused now t s shredded row row.shredded_at x w gone in
        (e, ap (λ z. decrypt_stored kms (sqlite_subjects parse_time now) t s z w) h ∙ out)

    ensure_cached-Refused :
        (now t s : Text) (fresh : Result Text) (o : Option Text) (w : World K Table)
        → o ≡ none
        → Closed (get_subject_key parse_time t s w.store)
        → Refused w (ensure_cached kms (sqlite_subjects parse_time now) t s fresh o w)
    ensure_cached-Refused now t s fresh (some dek) w h c = absurd (ground arith)
    ensure_cached-Refused now t s fresh none w h c =
        ensure_stored-Refused now t s fresh (get_subject_key parse_time t s w.store) w c

    decrypt_cached-Refused :
        (now t s : Text) (o : Option Text) (w : World K Table)
        → o ≡ none
        → Closed (get_subject_key parse_time t s w.store)
        → Refused w (decrypt_cached kms (sqlite_subjects parse_time now) t s o w)
    decrypt_cached-Refused now t s (some dek) w h c = absurd (ground arith)
    decrypt_cached-Refused now t s none w h c =
        decrypt_stored-Refused now t s (get_subject_key parse_time t s w.store) w c

    pub ensure_subject_key-Refused :
        (now t s : Text) (fresh : Result Text) (w : World K Table)
        → Gone t s w.cache w.store
        → Refused w (ensure_subject_key kms (sqlite_subjects parse_time now) t s fresh w)
    unfolding ensure_subject_key get_dek get_subject_key
    ensure_subject_key-Refused now t s fresh w (h, k) =
        ensure_cached-Refused now t s fresh (get_dek t s w.cache) w h
          (found_subject-Closed (find_subject t s w.store) k)

    -- The key of a forgotten subject is not found for a DecryptField.
    pub decrypt_cached-Gone :
        (now t s : Text) (w : World K Table)
        → Gone t s w.cache w.store
        → Refused w
            (decrypt_cached kms (sqlite_subjects parse_time now) t s (get_dek t s w.cache) w)
    unfolding get_dek get_subject_key
    decrypt_cached-Gone now t s w (h, k) =
        decrypt_cached-Refused now t s (get_dek t s w.cache) w h
          (found_subject-Closed (find_subject t s w.store) k)
