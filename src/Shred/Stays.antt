-- ===== src/Shred/Stays.antt =====
-- What a process does with its Shredder (shred/shred.go) after it forgot a subject.
use eventstore.Base.{ℕ, ◌≡◌, true, false, Option, none, some, List, [], ◌∷◌, Text, text_eq, ok, err}
use eventstore.Es.Error.{Result, plain}
use eventstore.Es.Envelope.{Time}
use eventstore.Shred.Cache.{bare, cache_key}
use eventstore.Shred.Field.{Aead}
use eventstore.Shred.Shredder.{
  ShredError, ShredResult, shredded, subject_key_not_found, other, KeyStore, SubjectKey, World,
  unwrapped, stored_dek, new_dek, wrapped_dek, ensure_stored, ensure_cached, ensure_subject_key,
  encrypt_field, decrypt_stored, decrypt_cached, decrypt_field, forget_subject, clear_cache,
  then_field,
}
use eventstore.Shred.SubjectTable.{Table, upsert_subject, get_subject_key, sqlite_subjects}
use eventstore.Shred.Forgotten.{Gone, set_dek-Gone, upsert_subject-has_shredded}
use eventstore.Shred.Rewrap.{Rewrapped, rewrap_deks}

-- A call of one of the Shredder's methods, with what rand.Read gives and the database's time; that
-- of RewrapDEKs has the most pages that its loop may read.
pub data ShredCall : Type 0 where
  ensure_call : (tenant subject now : Text) → (fresh : Result Text) → ShredCall
  encrypt_call :
      (tenant subject now : Text) → (fresh nonce : Result Text) → (plaintext : Text) → ShredCall
  decrypt_call : (tenant subject now sealed : Text) → ShredCall
  forget_call : (tenant subject now : Text) → ShredCall
  clear_call : ShredCall
  rewrap_call : (tenant now : Text) → (fuel page : ℕ) → ShredCall

module _ (parse_time : Text → Result Time) {K : Type 0} (kms : KeyStore K) (aead : Aead) where
  abbrev pub world_after : Option (Rewrapped K Table) → Option (World K Table)
  world_after none = none
  world_after (some out) = some out.1

  -- The world after a call; none for a call of RewrapDEKs that reads more pages.
  abbrev pub run_call : ShredCall → World K Table → Option (World K Table)
  run_call (ensure_call t s now fresh) w =
      some (ensure_subject_key kms (sqlite_subjects parse_time now) t s fresh w).1
  run_call (encrypt_call t s now fresh nonce pt) w =
      some (encrypt_field kms (sqlite_subjects parse_time now) aead t s fresh nonce pt w).1
  run_call (decrypt_call t s now sealed) w =
      some (decrypt_field kms (sqlite_subjects parse_time now) aead t s sealed w).1
  run_call (forget_call t s now) w =
      some (forget_subject kms (sqlite_subjects parse_time now) t s w).1
  run_call clear_call w = some (clear_cache kms (sqlite_subjects parse_time []) w)
  run_call (rewrap_call t now fuel page) w =
      world_after (rewrap_deks kms (sqlite_subjects parse_time now) fuel t page w)

  abbrev pub then_calls :
      (World K Table → Option (World K Table)) → Option (World K Table) → Option (World K Table)
  then_calls next none = none
  then_calls next (some w) = next w

  -- Calls one after the other.
  abbrev pub run_calls : List ShredCall → World K Table → Option (World K Table)
  run_calls [] w = some w
  run_calls (c ∷ cs) w = then_calls (run_calls cs) (run_call c w)

  -- Tenants have no vertical bar, and the database's time is not the empty text.
  abbrev pub Proper : ShredCall → Type 0
  Proper (ensure_call t s now fresh) = bare t ≡ true
  Proper (encrypt_call t s now fresh nonce pt) = bare t ≡ true
  Proper (decrypt_call t s now sealed) = bare t ≡ true
  Proper (forget_call t s []) = ⊥
  Proper (forget_call t s (c ∷ now)) = bare t ≡ true
  Proper clear_call = Unit
  Proper (rewrap_call t now fuel page) = Unit

  abbrev pub Lost : Text → Text → World K Table → Type 0
  Lost t s w = Gone t s w.cache w.store

  module _ (t s : Text) (b : bare t ≡ true) where
    module _ (now t' s' : Text) (differ : text_eq (cache_key t' s') (cache_key t s) ≡ false) where
      unwrapped-Lost :
          (r : Result Text) (w : World K Table)
          → Lost t s w
          → Lost t s (unwrapped kms (sqlite_subjects parse_time now) t' s' r w).1
      unwrapped-Lost (err e) w h = h
      unwrapped-Lost (ok dek) w h = set_dek-Gone t s t' s' dek w.cache w.store differ h

      stored_dek-Lost :
          (e : ShredError) (row : SubjectKey) (o : Option Time) (w : World K Table)
          → Lost t s w
          → Lost t s (stored_dek kms (sqlite_subjects parse_time now) e t' s' row o w).1
      stored_dek-Lost e row (some x) w h = h
      stored_dek-Lost e row none w h =
          unwrapped-Lost (kms.unwrap_dek t' row.dek_wrapped row.kek_version w.keys) w h

      wrapped_dek-Lost :
          (dek : Text) (r : Result (Text × ℕ) × K) (w : World K Table)
          → Lost t s w
          → Lost t s (wrapped_dek kms (sqlite_subjects parse_time now) t' s' dek r w).1
      wrapped_dek-Lost dek (err e, k) w h = h
      wrapped_dek-Lost dek (ok x, k) w (h, z) =
          set_dek-Gone t s t' s' dek w.cache (upsert_subject t' s' x.0 x.1 now w.store) differ
            (h, upsert_subject-has_shredded t s t' s' x.0 now x.1 w.store z)

      new_dek-Lost :
          (fresh : Result Text) (w : World K Table)
          → Lost t s w
          → Lost t s (new_dek kms (sqlite_subjects parse_time now) t' s' fresh w).1
      new_dek-Lost (err e) w h = h
      new_dek-Lost (ok dek) w h = wrapped_dek-Lost dek (kms.wrap_dek t' dek w.keys) w h

      ensure_stored-Lost :
          (fresh : Result Text) (r : ShredResult SubjectKey) (w : World K Table)
          → Lost t s w
          → Lost t s (ensure_stored kms (sqlite_subjects parse_time now) t' s' fresh r w).1
      ensure_stored-Lost fresh (ok row) w h = stored_dek-Lost (other plain) row row.shredded_at w h
      ensure_stored-Lost fresh (err subject_key_not_found) w h = new_dek-Lost fresh w h
      ensure_stored-Lost fresh (err shredded) w h = h
      ensure_stored-Lost fresh (err (other e)) w h = h

      pub ensure_cached-Lost :
          (fresh : Result Text) (o : Option Text) (w : World K Table)
          → Lost t s w
          → Lost t s (ensure_cached kms (sqlite_subjects parse_time now) t' s' fresh o w).1
      ensure_cached-Lost fresh (some dek) w h = h
      ensure_cached-Lost fresh none w h =
          ensure_stored-Lost fresh (get_subject_key parse_time t' s' w.store) w h

      decrypt_stored-Lost :
          (r : ShredResult SubjectKey) (w : World K Table)
          → Lost t s w
          → Lost t s (decrypt_stored kms (sqlite_subjects parse_time now) t' s' r w).1
      decrypt_stored-Lost (ok row) w h = stored_dek-Lost shredded row row.shredded_at w h
      decrypt_stored-Lost (err subject_key_not_found) w h = h
      decrypt_stored-Lost (err shredded) w h = h
      decrypt_stored-Lost (err (other e)) w h = h

      pub decrypt_cached-Lost :
          (o : Option Text) (w : World K Table)
          → Lost t s w
          → Lost t s (decrypt_cached kms (sqlite_subjects parse_time now) t' s' o w).1
      decrypt_cached-Lost (some dek) w h = h
      decrypt_cached-Lost none w h =
          decrypt_stored-Lost (get_subject_key parse_time t' s' w.store) w h

    pub then_field-Lost :
        (f : Text → Result Text) (out : ShredResult Text × World K Table)
        → Lost t s out.1
        → Lost t s (then_field kms (sqlite_subjects parse_time []) f out).1
    then_field-Lost f (err e, w) h = h
    then_field-Lost f (ok dek, w) h = h
