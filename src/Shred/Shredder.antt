-- ===== src/Shred/Shredder.antt =====
-- The Shredder of shred/shred.go, over a key store (kms/keystore.go) and a store of subject keys.
-- The random bytes of a new key are an argument.
use eventstore.Base.{List, Option, Outcome, Text, [], err, none, ok, some, ℕ}
use eventstore.Es.Error.{Error, Result, plain, kms_unavailable}
use eventstore.Es.Envelope.{Time}
use eventstore.Shred.Cache.{DekCache, get_dek, set_dek, forget_dek}
use eventstore.Shred.Field.{Aead, seal_field, open_field}

-- ErrShredded, ErrSubjectKeyNotFound, and the errors of the rest of the program.
pub data ShredError : Type 0 where
  shredded subject_key_not_found : ShredError
  other : Error → ShredError

abbrev pub ShredResult : Type 0 → Type 0
ShredResult A = Outcome ShredError A

-- kms.KeyStore over a state of its own.
pub record KeyStore (K : Type 0) : Type 0 where
  pub wrap_dek : Text → Text → K → Result (Text × ℕ) × K
  pub unwrap_dek : Text → Text → ℕ → K → Result Text
  pub current_kek_version : Text → K → Result ℕ

pub record SubjectKey : Type 0 where
  pub tenant_id : Text
  pub subject : Text
  pub dek_wrapped : Text
  pub kek_version : ℕ
  pub created_at : Time
  pub shredded_at : Option Time

-- SubjectStore; none is a nil error.
pub record SubjectStore (D : Type 0) : Type 0 where
  pub get_subject_key : Text → Text → D → ShredResult SubjectKey
  pub upsert_subject_key : Text → Text → Text → ℕ → D → Option Error × D
  pub forget_subject : Text → Text → D → Option Error × D
  pub list_stale_subject_keys : Text → ℕ → ℕ → D → Result (List SubjectKey)

-- The cache of one Shredder with the states of the two stores.
pub record World (K D : Type 0) : Type 0 where
  pub cache : DekCache
  pub keys : K
  pub store : D

module _ {K D : Type 0} (kms : KeyStore K) (st : SubjectStore D) where
  abbrev pub remember : Text → Text → Text → World K D → World K D
  remember tenant subject dek w = record w { cache = set_dek tenant subject dek w.cache }

  -- A key from the store, once it is unwrapped.
  abbrev pub unwrapped : Text → Text → Result Text → World K D → ShredResult Text × World K D
  unwrapped tenant subject (err e) w = (err (other kms_unavailable), w)
  unwrapped tenant subject (ok dek) w = (ok dek, remember tenant subject dek w)

  -- The row of the subject, or the given error where it is shredded.
  abbrev pub stored_dek :
      ShredError → Text → Text → SubjectKey → Option Time → World K D → ShredResult Text × World K D
  stored_dek gone tenant subject row (some t) w = (err gone, w)
  stored_dek gone tenant subject row none w =
      unwrapped tenant subject (kms.unwrap_dek tenant row.dek_wrapped row.kek_version w.keys) w

  abbrev pub persisted :
      Text → Text → Text → Option Error × D → World K D → ShredResult Text × World K D
  persisted tenant subject dek (some e, d) w = (err (other e), record w { store = d })
  persisted tenant subject dek (none, d) w =
      (ok dek, remember tenant subject dek (record w { store = d }))

  abbrev pub wrapped_dek :
      Text → Text → Text → Result (Text × ℕ) × K → World K D → ShredResult Text × World K D
  wrapped_dek tenant subject dek (err e, k) w = (err (other kms_unavailable), record w { keys = k })
  wrapped_dek tenant subject dek (ok x, k) w =
      persisted tenant subject dek (st.upsert_subject_key tenant subject x.0 x.1 w.store)
        (record w { keys = k })

  -- A new key; `fresh` is what rand.Read gives.
  abbrev pub new_dek : Text → Text → Result Text → World K D → ShredResult Text × World K D
  new_dek tenant subject (err e) w = (err (other e), w)
  new_dek tenant subject (ok dek) w =
      wrapped_dek tenant subject dek (kms.wrap_dek tenant dek w.keys) w

  abbrev pub ensure_stored :
      Text → Text → Result Text → ShredResult SubjectKey → World K D → ShredResult Text × World K D
  ensure_stored tenant subject fresh (ok row) w =
      stored_dek (other plain) tenant subject row row.shredded_at w
  ensure_stored tenant subject fresh (err subject_key_not_found) w = new_dek tenant subject fresh w
  ensure_stored tenant subject fresh (err shredded) w = (err shredded, w)
  ensure_stored tenant subject fresh (err (other e)) w = (err (other e), w)

  abbrev pub ensure_cached :
      Text → Text → Result Text → Option Text → World K D → ShredResult Text × World K D
  ensure_cached tenant subject fresh (some dek) w = (ok dek, w)
  ensure_cached tenant subject fresh none w =
      ensure_stored tenant subject fresh (st.get_subject_key tenant subject w.store) w

  -- The method EnsureSubjectKey.
  unfoldable pub ensure_subject_key :
      Text → Text → Result Text → World K D → ShredResult Text × World K D
  ensure_subject_key tenant subject fresh w =
      ensure_cached tenant subject fresh (get_dek tenant subject w.cache) w

  abbrev pub from_es : Result Text → ShredResult Text
  from_es (ok x) = ok x
  from_es (err e) = err (other e)

  abbrev pub then_field :
      (Text → Result Text) → ShredResult Text × World K D → ShredResult Text × World K D
  then_field f (err e, w) = (err e, w)
  then_field f (ok dek, w) = (from_es (f dek), w)

  -- The method EncryptField.
  unfoldable pub encrypt_field :
      Aead
      → Text
      → Text
      → Result Text
      → Result Text
      → Text
      → World K D
      → ShredResult Text × World K D
  unfolding ensure_subject_key seal_field
  encrypt_field aead tenant subject fresh nonce plaintext w =
      then_field (λ dek. seal_field aead dek nonce plaintext)
        (ensure_subject_key tenant subject fresh w)

  abbrev pub decrypt_stored :
      Text → Text → ShredResult SubjectKey → World K D → ShredResult Text × World K D
  decrypt_stored tenant subject (ok row) w =
      stored_dek shredded tenant subject row row.shredded_at w
  decrypt_stored tenant subject (err subject_key_not_found) w = (err (other plain), w)
  decrypt_stored tenant subject (err shredded) w = (err shredded, w)
  decrypt_stored tenant subject (err (other e)) w = (err (other e), w)

  abbrev pub decrypt_cached : Text → Text → Option Text → World K D → ShredResult Text × World K D
  decrypt_cached tenant subject (some dek) w = (ok dek, w)
  decrypt_cached tenant subject none w =
      decrypt_stored tenant subject (st.get_subject_key tenant subject w.store) w

  -- The method DecryptField.
  unfoldable pub decrypt_field :
      Aead → Text → Text → Text → World K D → ShredResult Text × World K D
  unfolding open_field
  decrypt_field aead tenant subject sealed w =
      then_field (λ dek. open_field aead dek sealed)
        (decrypt_cached tenant subject (get_dek tenant subject w.cache) w)

  abbrev pub forgotten : Text → Text → Option Error × D → World K D → Option Error × World K D
  forgotten tenant subject (some e, d) w = (some e, record w { store = d })
  forgotten tenant subject (none, d) w =
      (none, record w { store = d; cache = forget_dek tenant subject w.cache })

  -- The method ForgetSubject.
  unfoldable pub forget_subject : Text → Text → World K D → Option Error × World K D
  forget_subject tenant subject w =
      forgotten tenant subject (st.forget_subject tenant subject w.store) w

  -- The method ClearCache.
  unfoldable pub clear_cache : World K D → World K D
  clear_cache w = record w { cache = [] }
